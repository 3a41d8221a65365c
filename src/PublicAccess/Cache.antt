-- ===== src/PublicAccess/Cache.antt =====
-- The cached flag and the stored one (backend/internal/publicaccess/service.go).
use komachi.Base.{
  ◌≡◌, refl, ap, Bool, true, false, Option, none, some, List, [], ◌∷◌, all, arith, ok, Option-cases,
  inl, inr,
}
use komachi.PublicAccess.{
  Service, saved, lost, committed, Call, setting, reloading, replacing, load, created,
  new_settings_managed, set_enabled, cached, reload, attempt, perform_all,
}

-- a call of the service itself
abbrev pub is_own : {F : Type 0} → Call F → Bool
is_own (setting saving b) = true
is_own (reloading fails) = true
is_own (replacing file) = false

-- a call that leaves what is stored, or says that it stored it
abbrev pub is_steady : {F : Type 0} → Call F → Bool
is_steady (setting saved b) = true
is_steady (setting lost b) = true
is_steady (setting committed b) = false
is_steady (reloading fails) = true
is_steady (replacing file) = false

module _ {F : Type 0} (encode : Bool → F) (decode : F → Option Bool) where
  abbrev pub IsCodec : Type 0
  IsCodec = (b : Bool) → decode (encode b) ≡ some b

  abbrev InStep : Service F → Type 0
  InStep s = (load encode decode false s.file ≡ some s.enabled) × (s.env_managed ≡ false)

  managed-attempt :
      (c : Call F) (s : Service F)
      → s.env_managed ≡ false
      → (attempt encode decode c s).1.env_managed ≡ false
  unfolding attempt set_enabled reload
  managed-attempt (setting saved b) s m = ground arith
  managed-attempt (setting lost b) s m = ground arith
  managed-attempt (setting committed b) s m = ground arith
  managed-attempt (reloading fails) s m = elim (Option-cases (load encode decode fails s.file)) [
    | inl e ↦ rw (m, e) refl
    | inr (b, e) ↦ rw (m, e) refl
  ]
  managed-attempt (replacing file) s m = m

  managed-perform_all :
      (cs : List (Call F)) (s : Service F)
      → s.env_managed ≡ false
      → (perform_all encode decode cs s).env_managed ≡ false
  unfolding perform_all
  managed-perform_all [] s m = m
  managed-perform_all (c ∷ cs) s m =
      managed-perform_all cs (attempt encode decode c s).1 (managed-attempt c s m)

  -- A load that works brings the flags into step, and one that fails says so.
  reload-InStep :
      (fails : Bool) (s : Service F)
      → s.env_managed ≡ false
      → (reload encode decode fails s).0 ≡ ok tt
      → InStep (reload encode decode fails s).1
  unfolding reload
  reload-InStep true s m e = absurd (ground arith)
  reload-InStep false s m e = elim (Option-cases (load encode decode false s.file)) [
    | inl k ↦ let z = rw (m, k) at e in absurd (ground arith)
    | inr (b, k) ↦ rw (m, k) (k, refl)
  ]

  attempt-InStep :
      (codec : IsCodec) (c : Call F) (s : Service F)
      → s.env_managed ≡ false
      → is_own c ≡ true
      → (attempt encode decode c s).0 ≡ ok tt
      → InStep (attempt encode decode c s).1
  unfolding attempt set_enabled
  attempt-InStep codec (setting saved b) s m own e = rw m (codec b, refl)
  attempt-InStep codec (setting lost b) s m own e = absurd (ground arith)
  attempt-InStep codec (setting committed b) s m own e = absurd (ground arith)
  attempt-InStep codec (reloading fails) s m own e = reload-InStep fails s m e
  attempt-InStep codec (replacing file) s m own e = absurd (ground arith)

  reload_keeps : (fails : Bool) (s : Service F) → InStep s → (reload encode decode fails s).1 ≡ s
  unfolding reload
  reload_keeps true s (k, m) = ground arith
  reload_keeps false s (k, m) = simp m (ap (λ o. (cached encode decode s o).1) k)

  steady-InStep :
      (codec : IsCodec) (c : Call F) (s : Service F)
      → is_steady c ≡ true
      → InStep s
      → InStep (attempt encode decode c s).1
  unfolding attempt set_enabled
  steady-InStep codec (setting saved b) s t (k, m) = rw m (codec b, refl)
  steady-InStep codec (setting lost b) s t (k, m) = rw m (k, refl)
  steady-InStep codec (setting committed b) s t v = absurd (ground arith)
  steady-InStep codec (reloading fails) s t v = rw (reload_keeps fails s v) v
  steady-InStep codec (replacing file) s t v = absurd (ground arith)

  perform_all-InStep :
      (codec : IsCodec) (cs : List (Call F)) (s : Service F)
      → all is_steady cs ≡ true
      → InStep s
      → InStep (perform_all encode decode cs s)
  unfolding perform_all
  perform_all-InStep codec [] s t v = v
  perform_all-InStep codec (c ∷ cs) s t v =
      perform_all-InStep codec cs (attempt encode decode c s).1 (ground arith)
        (steady-InStep codec c s (ground arith) v)

  new_settings_managed-managed :
      (file : Option F) (o : Option Bool) (s : Service F)
      → created encode decode file o ≡ some s
      → s.env_managed ≡ false
  new_settings_managed-managed file none s h = absurd (ground arith)
  new_settings_managed-managed file (some b) s h = ground arith

  -- Whatever calls were made of a service that was made from the stored flag, whatever failures of
  -- the store they met, and whatever else replaced what is stored: once a SetEnabled or a Reload has
  -- succeeded, the service answers with the flag that is stored, and still does after further calls,
  -- until a failing SetEnabled stores its value all the same or what is stored is replaced.
  pub enabled-perform_all :
      (codec : IsCodec) (fails : Bool) (file : Option F) (s : Service F) (cs ds : List (Call F))
      (c : Call F)
      → new_settings_managed encode decode fails file ≡ some s
      → is_own c ≡ true
      → (attempt encode decode c (perform_all encode decode cs s)).0 ≡ ok tt
      → all is_steady ds ≡ true
      → load encode decode false
          (perform_all encode decode ds
            (attempt encode decode c (perform_all encode decode cs s)).1).file
        ≡ some
            (perform_all encode decode ds
              (attempt encode decode c (perform_all encode decode cs s)).1).enabled
  unfolding new_settings_managed
  enabled-perform_all codec fails file s cs ds c h own e t =
      let m = managed-perform_all cs s (new_settings_managed-managed file _ s h) in
      let before = perform_all encode decode cs s in
      (perform_all-InStep codec ds (attempt encode decode c before).1 t
        (attempt-InStep codec c before m own e)).0
