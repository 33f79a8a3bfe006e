-- ===== src/Volume/Pools/Views.antt =====
-- Views of the pools before and after a change of one pool.
use mathlib.Core.Path.{fun_ext}
use ai_hyperscaler_on_workst.Common.{
  ◌≡◌, refl, ap, ◌∙◌, arith, Option, none, some, Bool, false, Text, text_eq_iff, Option-cases,
  is_some,
}
use ai_hyperscaler_on_workst.Volume.View.{
  Volumes, View, set_pool, set_volume, has_volume, put_volume,
}

pub set_pool-at : (pool : Text) (p : Option Volumes) (v : View) → set_pool pool p v pool ≡ p
set_pool-at pool p v = rw ((text_eq_iff pool pool).1 refl) refl

pub set_pool-twice :
    (pool : Text) (p q : Option Volumes) (v : View)
    → set_pool pool q (set_pool pool p v) ≡ set_pool pool q v
set_pool-twice pool p q v = fun_ext λ other. ground arith

pub put_volume-at :
    (pool volume : Text) (b : Bool) (v : View) (p : Volumes)
    → v pool ≡ some p
    → put_volume pool volume b v ≡ set_pool pool (some (set_volume volume b p)) v
put_volume-at pool volume b v p e = ground (arith, e)

-- A change of one volume of a pool that is all that differs.
pub put_volume-within :
    (pool volume : Text) (b : Bool) (v : View) (p : Volumes) (w : View)
    → w ≡ set_pool pool (some p) v
    → put_volume pool volume b w ≡ set_pool pool (some (set_volume volume b p)) v
put_volume-within pool volume b v p w e =
    ap (put_volume pool volume b) e
    ∙ put_volume-at pool volume b (set_pool pool (some p) v) p (set_pool-at pool (some p) v)
    ∙ set_pool-twice pool (some p) (some (set_volume volume b p)) v

pub set_volume-at : (volume : Text) (b : Bool) (p : Volumes) → set_volume volume b p volume ≡ b
set_volume-at volume b p = rw ((text_eq_iff volume volume).1 refl) refl

pub has_volume-at :
    (pool volume : Text) (v : View) (p : Volumes)
    → v pool ≡ some p
    → has_volume v pool volume ≡ p volume
has_volume-at pool volume v p e = ground (arith, e)

pub set_pool-absent : (pool : Text) (v : View) → is_some (v pool) ≡ false → v ≡ set_pool pool none v
set_pool-absent pool v absent =
    fun_ext λ other. ground (arith, text_eq_iff pool other, Option-cases (v pool))
