-- ===== src/ProxyWatcher/Update.antt =====
-- What `Proxy::update_parameters` does to the known parameters, as a map from names to values.
use pmx.Base.{
  ◌≡◌, refl, ap, ◌∙◌, arith, Bool, true, false, List, [], ◌∷◌, ◌++◌, Option, none, some, Text,
  text_eq, inl, inr, Option-cases, if◌then◌else◌, text_eq_trans, text_eq_sym, text_eq_sound, sym,
}
use pmx.Properties.{Property, find_property}
use pmx.ProxyWatcher.{equal, replace, update_all, value_eq}

module _ {R : Type 0} (real_eq : R → R → Bool) where
  -- What is known under a name when one update has come in: an equal value is kept.
  abbrev pub overlay_one : Text → Option (Property R) → Property R → Option (Property R)
  overlay_one name none u = if text_eq u.0 name then some u else none
  overlay_one name (some p) u =
      if text_eq u.0 name then (if value_eq real_eq p.1 u.1 then some p else some u) else some p

  abbrev pub overlay : Text → Option (Property R) → List (Property R) → Option (Property R)
  overlay name known [] = known
  overlay name known (u ∷ us) = overlay name (overlay_one name known u) us

  find_property-eq :
      (j k : Text) (ps : List (Property R))
      → text_eq j k ≡ true
      → find_property j ps ≡ find_property k ps
  find_property-eq j k ps h = ap (λ t. find_property t ps) (text_eq_sound j k h)

  find_property-append_new :
      (name : Text) (ps : List (Property R)) (u : Property R)
      → find_property name (ps ++ u ∷ []) ≡ elim (find_property name ps) [
        | some p ↦ some p
        | none ↦ if text_eq u.0 name then some u else none
      ]
  find_property-append_new name [] u = refl
  find_property-append_new name (p ∷ ps) u = ground (arith, find_property-append_new name ps u)

  find_property-append :
      (name : Text) (ps : List (Property R)) (u : Property R)
      → find_property u.0 ps ≡ none
      → find_property name (ps ++ u ∷ []) ≡ overlay_one name (find_property name ps) u
  find_property-append name ps u h =
      ground (arith, find_property-append_new name ps u, find_property-eq u.0 name ps)

  find_property-replace :
      (name : Text) (ps : List (Property R)) (u p : Property R)
      → find_property u.0 ps ≡ some p
      → value_eq real_eq p.1 u.1 ≡ false
      → find_property name (replace real_eq u ps) ≡ overlay_one name (find_property name ps) u
  unfolding replace
  find_property-replace name [] u p h k = cc
  find_property-replace name (q ∷ ps) u p h k = ground (
    arith,
    text_eq_trans q.0 u.0 name,
    text_eq_trans q.0 name u.0,
    text_eq_sym u.0 name,
    find_property-replace name ps u p,
  )

  find_property-keep :
      (name : Text) (ps : List (Property R)) (u p : Property R)
      → find_property u.0 ps ≡ some p
      → equal real_eq p u ≡ true
      → overlay_one name (find_property name ps) u ≡ find_property name ps
  unfolding equal
  find_property-keep name ps u p h k = ground (arith, find_property-eq u.0 name ps)

  find_property-named :
      (name : Text) (ps : List (Property R)) (p : Property R)
      → find_property name ps ≡ some p
      → text_eq p.0 name ≡ true
  find_property-named name [] p h = cc
  find_property-named name (q ∷ ps) p h = ground (arith, find_property-named name ps p)

  -- For every name, the known value after an update is the one before it, overlaid with the update's
  -- parameters of that name in their order, where an equal value does not replace the known one.
  pub update_all-eq-overlay :
      (name : Text) (us ps : List (Property R))
      → find_property name (update_all real_eq ps us).0 ≡ overlay name (find_property name ps) us
  unfolding update_all
  update_all-eq-overlay name [] ps = refl
  update_all-eq-overlay name (u ∷ us) ps = elim (Option-cases (find_property u.0 ps)) [
    | inl n ↦
        ground
          (arith, update_all-eq-overlay name us (ps ++ u ∷ []), find_property-append name ps u n)
    | inr (p, e) ↦ ground (
      arith,
      update_all-eq-overlay name us ps,
      update_all-eq-overlay name us (replace real_eq u ps),
      find_property-keep name ps u p e,
      find_property-named u.0 ps p e,
      find_property-replace name ps u p e,
    )
  ]

  -- The reported changes are all that matters: an update with just these leads from the same
  -- parameters to the same parameters, and reports the same changes.
  pub update_all-changes :
      (us ps : List (Property R))
      → update_all real_eq ps (update_all real_eq ps us).1 ≡ update_all real_eq ps us
  unfolding update_all
  update_all-changes [] ps = refl
  update_all-changes (u ∷ us) ps = ground (
    arith,
    update_all-changes us ps,
    update_all-changes us (ps ++ u ∷ []),
    update_all-changes us (replace real_eq u ps),
  )

  -- An update that reports no change leaves the parameters as they were.
  pub update_all-unchanged :
      (us ps : List (Property R))
      → (update_all real_eq ps us).1 ≡ []
      → (update_all real_eq ps us).0 ≡ ps
  unfolding update_all
  update_all-unchanged us ps h =
      ap (λ r. r.0)
        (sym (update_all-changes us ps) ∙ ap (λ changes. update_all real_eq ps changes) h)
