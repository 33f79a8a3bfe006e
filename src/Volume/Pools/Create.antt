-- ===== src/Volume/Pools/Create.antt =====
-- `create_cluster_pool` on the pools and their volumes.
use mathlib.Core.Path.{subst}
use ai_hyperscaler_on_workst.Common.{
  ℕ, ◌+◌, ◌≡◌, ◌⊎◌, inl, inr, refl, ap, ◌∙◌, none, some, List, [], ◌∷◌, Bool, true, false,
  if◌then◌else◌, Text, codes, is_some,
}
use ai_hyperscaler_on_workst.Common.Int.{ℤ, pos, negsuc}
use ai_hyperscaler_on_workst.Common.Exec.{pure, raise, ◌>>=◌, ◌>>◌}
use ai_hyperscaler_on_workst.Common.Ensures.{
  Ensures, Ensures-weaken, Ensures-pure, Ensures-raise, Ensures-try, Ensures-if, Ensures-bind,
}
use ai_hyperscaler_on_workst.Common.Keeps.{
  Keeps, Keeps-pure, Keeps-raise, Keeps-bind, Keeps-gets, Keeps-if, Keeps-try, kept,
}
use ai_hyperscaler_on_workst.Problem.{Problem, libvirt_error, volume_error, Act, libvirt_to, all_to}
use ai_hyperscaler_on_workst.Volume.{
  Storage, VolumeXml, ImageInfo, pool_name, base_volume_name, join_path, pool_exists,
  volume_exists_in_pool,
}
use ai_hyperscaler_on_workst.Volume.View.{
  Volumes, View, volumes_of, set_pool, set_volume, has_volume, Pools, Unseen, Answers, Answers-true,
  Answers-false, after_lookup, pool_exists-lem, volume_exists-lem,
}
use ai_hyperscaler_on_workst.Volume.Pools.{
  get_or, send_chunks, upload_through_stream, upload_volume_data, create_base_volume_from_image,
  make_pool, create_cluster_pool,
}
use ai_hyperscaler_on_workst.Volume.Pools.Views.{
  set_pool-at, set_pool-twice, put_volume-within, set_volume-at, has_volume-at,
}

abbrev base_xml : Text → ImageInfo → VolumeXml
base_xml volume image_info = record {
  name = volume;
  capacity = get_or image_info.virtual_size 0;
  format = get_or image_info.format (codes "qcow2");
  backing = none;
}

module _ {Host : Type 0} {st : Storage Host} (ps : Pools st) where
  open ps use {view}

  Keeps-abort : Keeps view st.abort
  Keeps-abort = record { at = ps.abort_lem }

  Keeps-finish : Keeps view st.finish
  Keeps-finish = record { at = ps.finish_lem }

  Keeps-new_stream : Keeps view st.new_stream
  Keeps-new_stream = record { at = ps.new_stream_lem }

  Keeps-send : (chunk : List ℕ) → Keeps view (st.send chunk)
  Keeps-send chunk = record { at = ps.send_lem chunk }

  Keeps-read : (path : Text) → Keeps view (st.read_chunks path)
  Keeps-read path = record { at = ps.read_lem path }

  Keeps-info : (pool volume : Text) → Keeps view (st.volume_info pool volume)
  Keeps-info pool volume = record { at = ps.volume_info_lem pool volume }

  Keeps-start :
      (pool volume : Text) (capacity : ℕ) → Keeps view (st.start_upload pool volume capacity)
  Keeps-start pool volume capacity = record { at = ps.start_upload_lem pool volume capacity }

  ruleset pool_rules = (
    Keeps-pure, Keeps-raise, Keeps-bind, Keeps-gets, Keeps-if, Keeps-try, Keeps-abort, Keeps-finish,
    Keeps-new_stream, Keeps-send, Keeps-read, Keeps-info, Keeps-start,
  )

  sent-Keeps :
      (sent : ℤ) (f : ℕ → Act Host ℕ)
      → ((n : ℕ) → Keeps view (f n))
      → Keeps view (elim sent [ negsuc n ↦ raise volume_error | pos n ↦ f n ])
  sent-Keeps (pos n) f k = k n
  sent-Keeps (negsuc n) f k = Keeps-raise view volume_error

  send_chunks-Keeps :
      (chunks : List (List ℕ)) (total_sent : ℕ) → Keeps view (send_chunks st chunks total_sent)
  unfolding send_chunks
  send_chunks-Keeps [] total_sent = Keeps-pure view total_sent
  send_chunks-Keeps (chunk ∷ chunks) total_sent =
      Keeps-bind view (st.send chunk) _ (Keeps-send chunk) λ sent.
        sent-Keeps sent (λ n. send_chunks st chunks (total_sent + n))
          (λ n. send_chunks-Keeps chunks (total_sent + n))

  through_stream-Keeps :
      (pool volume source_path : Text)
      → Keeps view (upload_through_stream st pool volume source_path)
  unfolding upload_through_stream
  through_stream-Keeps pool volume source_path = search (pool_rules, send_chunks-Keeps) depth 12

  upload-Keeps :
      (pool volume source_path : Text) → Keeps view (upload_volume_data st pool volume source_path)
  unfolding upload_volume_data
  upload-Keeps pool volume source_path = search (pool_rules, through_stream-Keeps) depth 12

  converted :
      {A : Type 0} {R : A → Host → Type 0} {Q : Problem → Host → Type 0} (e : Problem) (h : Host)
      → ((other : Problem) → Q other h)
      → Ensures R Q (libvirt_to {A = A} volume_error e) h
  converted libvirt_error h f = Ensures-raise volume_error h (f volume_error)
  converted e h f = Ensures-raise e h (f e)

  -- The pool is there, and nothing else differs from a view.
  abbrev pub IsThere : {A : Type 0} (pool : Text) → View → A → Host → Type 0
  IsThere pool v a h = (p : Volumes) × (view h ≡ set_pool pool (some p) v)

  abbrev pub HasBase : {A : Type 0} (pool base : Text) → View → A → Host → Type 0
  HasBase pool base v a h = (p : Volumes) × (p base ≡ true) × (view h ≡ set_pool pool (some p) v)

  abbrev pub PoolLeft : (pool : Text) → View → Host → Type 0
  PoolLeft pool v h = (view h ≡ v) ⊎ (Unseen ps (is_some (v pool)) × IsThere pool v tt h)

  IsThere-Keeps :
      {A : Type 0} (pool : Text) (v : View) (m : Act Host A) (h : Host)
      → Keeps view m
      → IsThere pool v tt h
      → Ensures (IsThere pool v) (IsThere pool v) m h
  IsThere-Keeps pool v m h k (p, e) =
      Ensures-weaken m h (k.at h) (λ a h' f. (p, f ∙ e)) (λ q h' f. (p, f ∙ e))

  started-lem :
      (pool : Text) (v : View) (h : Host)
      → IsThere pool v tt h
      → Ensures
          (IsThere pool v)
          (IsThere pool v)
          (do st.build_pool pool; st.create_pool pool; st.set_autostart pool; st.pool_uuid pool)
          h
  started-lem pool v h t =
      Ensures-bind (st.build_pool pool) _ h
        (IsThere-Keeps pool v (st.build_pool pool) h (record { at = ps.build_lem pool }) t)
        λ a h1 (p, e1).
          Ensures-bind (st.create_pool pool) _ h1
            (Ensures-weaken (st.create_pool pool) h1 (ps.create_lem pool h1)
              (λ b h' (found, e). (
                found,
                e
                    ∙ ap (set_pool pool (some found)) e1
                    ∙ set_pool-twice pool (some p) (some found) v,
              ))
              (λ q h' e. (p, e ∙ e1)))
            λ b h2 t2.
              Ensures-bind (st.set_autostart pool) _ h2
                (IsThere-Keeps pool v (st.set_autostart pool) h2
                  (record { at = ps.autostart_lem pool }) t2)
                λ c h3 t3.
                  IsThere-Keeps pool v (st.pool_uuid pool) h3 (record { at = ps.uuid_lem pool }) t3

  make_pool-lem :
      (v : View) (pool path : Text) (h : Host)
      → view h ≡ v
      → Unseen ps (is_some (v pool))
      → Ensures (IsThere pool v) (λ e h'. PoolLeft pool v h') (make_pool st pool path) h
  unfolding make_pool
  make_pool-lem v pool path h same unseen =
      Ensures-try {Q = λ e h'. PoolLeft pool v h'} _ (libvirt_to volume_error) h
        (Ensures-bind st.connect _ h
          (Ensures-weaken st.connect h (ps.connect_lem h) (λ a h' e. e ∙ same)
            (λ p h' e. inl (e.1 ∙ same)))
          λ a h1 e1.
            Ensures-bind (st.define_pool pool path) _ h1
              (Ensures-weaken (st.define_pool pool path) h1 (ps.define_lem pool path h1)
                (λ a' h' e. (
                  volumes_of (v pool),
                  e ∙ ap (λ (u : View). set_pool pool (some (volumes_of (u pool))) u) e1,
                ))
                (λ p h' e. inl (e ∙ e1)))
              λ b h2 t2.
                Ensures-weaken
                  (do
                    st.build_pool pool
                    st.create_pool pool
                    st.set_autostart pool
                    st.pool_uuid pool)
                  h2 (started-lem pool v h2 t2) (λ a' h' t. t) (λ p h' t. inr (unseen, t)))
        (λ e h' l. converted e h' (λ other. l))

  base-lem :
      (v : View) (pool base source : Text) (h : Host)
      → IsThere pool v tt h
      → Ensures
          (HasBase pool base v)
          (IsThere pool v)
          (create_base_volume_from_image st pool base source)
          h
  unfolding create_base_volume_from_image
  base-lem v pool base source h (p, same) =
      let w = set_pool pool (some p) v in
      let q = set_volume base true p in
      let after = set_pool pool (some q) v in
      Ensures-try {Q = IsThere {A = Problem} pool v} _ (all_to volume_error) h
        (after_lookup ps w pool _ h same (λ e h' m. (p, m.1))
          λ h1 there e1.
            Ensures-bind (st.image_info source) _ h1
              (Ensures-weaken (st.image_info source) h1 (ps.image_info_lem source h1)
                (λ a h' e. e ∙ e1) (λ r h' e. (p, e ∙ e1)))
              λ image_info h2 e2.
                Ensures-bind (st.create_volume pool (base_xml base image_info)) _ h2
                  (Ensures-weaken (st.create_volume pool (base_xml base image_info)) h2
                    (ps.create_volume_lem pool (base_xml base image_info) h2)
                    (λ a h' e. e ∙ put_volume-within pool base true v p (view h2) e2)
                    (λ r h' e. (p, e ∙ e2)))
                  λ a h3 e3.
                    Ensures-weaken
                      (st.volume_path pool base >>= λ path. upload_volume_data st pool base source)
                      h3
                      (kept view after _ h3
                        (Keeps-bind view (st.volume_path pool base) _
                          (record { at = ps.volume_path_lem pool base })
                          (λ path. upload-Keeps pool base source))
                        e3)
                      (λ b h' e. (q, set_volume-at base true p, e)) (λ r h' e. (q, e)))
        λ e h' t. Ensures-raise volume_error h' t

  abbrev pub PoolCreated : (pool base : Text) → View → Text → Host → Type 0
  PoolCreated pool base v answer h =
      (answer ≡ pool)
      × (((is_some (v pool) ≡ true) × (view h ≡ v))
          ⊎ (Unseen ps (is_some (v pool)) × HasBase pool base v tt h))

  -- What the look for the base volume says of a pool that is there.
  Looked : (pool base : Text) → View → Bool → Host → Type 0
  Looked pool base v b h =
      (p : Volumes) × Answers ps (p base) b × (view h ≡ set_pool pool (some p) v)

  has_base-lem :
      (v : View) (pool base : Text) (h : Host)
      → IsThere pool v tt h
      → Ensures (Looked pool base v) (IsThere pool v) (volume_exists_in_pool st pool base) h
  unfolding Looked
  has_base-lem v pool base h (p, same) =
      let w = set_pool pool (some p) v in
      let listed : has_volume w pool base ≡ p base =
        has_volume-at pool base w p (set_pool-at pool (some p) v) in
      Ensures-weaken (volume_exists_in_pool st pool base) h
        (volume_exists-lem ps w pool base h same (ap is_some (set_pool-at pool (some p) v)))
        (λ b h' (answer, e). (p, subst (λ t. Answers ps t b) listed answer, e)) (λ r h' e. (p, e))

  with_base-lem :
      (v : View) (pool base source : Text) (has_base : Bool) (h : Host)
      → Looked pool base v has_base h
      → Ensures
          (HasBase pool base v)
          (IsThere pool v)
          (if has_base then pure tt else create_base_volume_from_image st pool base source)
          h
  unfolding Looked
  with_base-lem v pool base source true h (p, has, e) = Ensures-pure tt h (p, has, e)
  with_base-lem v pool base source false h (p, lacks, e) = base-lem v pool base source h (p, e)

  pub create_cluster_pool-lem :
      (cluster_name pool_path base_image_path : Text) (h : Host)
      → Ensures
          (PoolCreated (pool_name cluster_name) (base_volume_name cluster_name) (view h))
          (λ e h'. (e ≡ volume_error) × PoolLeft (pool_name cluster_name) (view h) h')
          (create_cluster_pool st cluster_name pool_path base_image_path)
          h
  unfolding create_cluster_pool
  create_cluster_pool-lem cluster_name pool_path base_image_path h =
      let pool = pool_name cluster_name in
      let base = base_volume_name cluster_name in
      let v = view h in
      Ensures-try {Q = λ e h'. PoolLeft pool v h'} _ (all_to volume_error) h
        (Ensures-bind (pool_exists st pool) _ h
          (Ensures-weaken (pool_exists st pool) h (pool_exists-lem ps v pool h refl) (λ b h' e. e)
            (λ p h' e. inl e))
          λ present h1 e1.
            Ensures-if present _ _ h1
              (λ there.
                Ensures-pure pool h1
                  (refl, inl (Answers-true ps (is_some (v pool)) present e1.0 there, e1.1)))
              λ missing.
                let unseen : Unseen ps (is_some (v pool)) =
                  Answers-false ps (is_some (v pool)) present e1.0 missing in
                Ensures-bind (make_pool st pool (join_path pool_path cluster_name)) _ h1
                  (make_pool-lem v pool (join_path pool_path cluster_name) h1 e1.1 unseen)
                  λ uuid h2 t2.
                    Ensures-bind (volume_exists_in_pool st pool base) _ h2
                      (Ensures-weaken (volume_exists_in_pool st pool base) h2
                        (has_base-lem v pool base h2 t2) (λ b h' l. l) (λ p h' t. inr (unseen, t)))
                      λ has_base h3 l3.
                        Ensures-bind _ _ h3
                          (Ensures-weaken _ h3
                            (with_base-lem v pool base base_image_path has_base h3 l3) (λ a h' b. b)
                            (λ p h' t. inr (unseen, t)))
                          λ a h4 b4. Ensures-pure pool h4 (refl, inr (unseen, b4)))
        λ e h' left. Ensures-raise volume_error h' (refl, left)
