-- ===== src/Volume/Vms/Views.antt =====
-- Views of the pools before and after a change of one volume.
use mathlib.Core.Path.{fun_ext}
use ai_hyperscaler_on_workst.Common.{
  ◌≡◌, inl, inr, sym, ap, ◌∙◌, arith, none, some, Bool, false, Text, text_eq_iff, Option-cases,
  is_some,
}
use ai_hyperscaler_on_workst.Volume.View.{
  Volumes, View, set_pool, set_volume, has_volume, put_volume,
}

set_pool_self :
    (pool : Text) (p : Volumes) (v : View) → v pool ≡ some p → set_pool pool (some p) v ≡ v
set_pool_self pool p v e = fun_ext λ other. ground (arith, text_eq_iff pool other, e)

set_volume_self :
    (volume : Text) (b : Bool) (p : Volumes) → p volume ≡ b → set_volume volume b p ≡ p
set_volume_self volume b p e = fun_ext λ other. ground (arith, text_eq_iff volume other, e)

put_volume-some :
    (pool volume : Text) (b : Bool) (v : View) (p : Volumes)
    → v pool ≡ some p
    → put_volume pool volume b v ≡ set_pool pool (some (set_volume volume b p)) v
put_volume-some pool volume b v p e = ground (arith, e)

put_volume-none :
    (pool volume : Text) (b : Bool) (v : View) → v pool ≡ none → put_volume pool volume b v ≡ v
put_volume-none pool volume b v e = ground (arith, e)

has_volume-some :
    (pool volume : Text) (v : View) (p : Volumes)
    → v pool ≡ some p
    → has_volume v pool volume ≡ p volume
has_volume-some pool volume v p e = ground (arith, e)

pub put_volume_self :
    (pool volume : Text) (b : Bool) (v : View)
    → has_volume v pool volume ≡ b
    → put_volume pool volume b v ≡ v
put_volume_self pool volume b v h = elim (Option-cases (v pool)) [
  | inl absent ↦ put_volume-none pool volume b v absent
  | inr (p, e) ↦
      put_volume-some pool volume b v p e
      ∙ ap (λ (q : Volumes). set_pool pool (some q) v)
          (set_volume_self volume b p (sym (has_volume-some pool volume v p e) ∙ h))
      ∙ set_pool_self pool p v e
]

pub not_there :
    (pool volume : Text) (v : View) → is_some (v pool) ≡ false → has_volume v pool volume ≡ false
not_there pool volume v h = elim (Option-cases (v pool)) [
  | inl absent ↦ ground (arith, absent)
  | inr (p, e) ↦ absurd (ground (arith, e, h))
]
