-- ===== src/Storage/Config/Ids.antt =====
-- server/src/storage/config.rs: which credential ids are accepted, and what they are compared by.
use rs_matter_server.Prelude.{
  ◌≡◌, ◌⊎◌, inl, inr, refl, sym, ◌∙◌, ap, true, false, ◌++◌, any, ◌==◌, ==_iff, nat_ord, text_ord,
  length, Result, ok, err, Bool-cases, if_either,
}
use rs_matter_server.Prelude.Text.{Text, text, trim, to_ascii_lowercase, eq_ignore_ascii_case}
use rs_matter_server.Prelude.Text.Trim.{trim_idempotent}
use rs_matter_server.Storage.Config.{
  default_credential_id, validate_credential_id, same_id, reserved_credential_ids,
}

-- What ids are compared by.
unfoldable pub fold : Text → Text
fold id = to_ascii_lowercase (trim id)

pub fold_default : fold default_credential_id ≡ default_credential_id
unfolding fold default_credential_id trim to_ascii_lowercase
fold_default = refl

pub fold-trim : (id : Text) → fold (trim id) ≡ fold id
unfolding fold
fold-trim id = rw trim_idempotent refl

-- An accepted id is `default` in some spelling, or another id, stored without the space around it.
abbrev pub IsCanonical : Text → Text → Type 0
IsCanonical id canonical =
    (canonical ≡ default_credential_id) × ((fold id == default_credential_id) ≡ true)
    ⊎ ((canonical == default_credential_id) ≡ false)
      × ((fold id == default_credential_id) ≡ false)
      × (canonical ≡ trim id)

pub ok_inj : {A : Type 0} {a b : A} → ◌≡◌ {A = Result Text A} (ok a) (ok b) → a ≡ b
ok_inj h = cc

lower_default : to_ascii_lowercase default_credential_id ≡ default_credential_id
unfolding default_credential_id to_ascii_lowercase
lower_default = refl

not_default :
    (id : Text)
    → (to_ascii_lowercase id == default_credential_id) ≡ false
    → (id == default_credential_id) ≡ false
not_default id d = elim (Bool-cases (id == default_credential_id)) [
  | inl e ↦
      let same : to_ascii_lowercase id ≡ default_credential_id =
        ap to_ascii_lowercase ((==_iff id default_credential_id).0 e) ∙ lower_default in
      let t : (to_ascii_lowercase id == default_credential_id) ≡ true =
        (==_iff (to_ascii_lowercase id) default_credential_id).1 same in
      cc
  | inr e ↦ e
]

pub no_result : {A P : Type 0} {e : Text} {a : A} → ◌≡◌ {A = Result Text A} (err e) (ok a) → P
no_result h = cc

other_IsCanonical :
    (id canonical : Text)
    → trim id ≡ canonical
    → (fold id == default_credential_id) ≡ false
    → IsCanonical id canonical
unfolding fold
other_IsCanonical id canonical e d = inr (rw (← e) (not_default (trim id) d), d, sym e)

pub validated-IsCanonical :
    (id canonical : Text) → validate_credential_id id ≡ ok canonical → IsCanonical id canonical
unfolding validate_credential_id fold
validated-IsCanonical id canonical h =
    if_either (λ r. r ≡ ok canonical → IsCanonical id canonical) (length (trim id) == 0) _ _
      (λ z e. no_result e)
      (λ z.
        if_either (λ r. r ≡ ok canonical → IsCanonical id canonical)
          (to_ascii_lowercase (trim id) == default_credential_id) _ _
          (λ d e. inl (sym (ok_inj e), d))
          (λ d.
            if_either (λ r. r ≡ ok canonical → IsCanonical id canonical)
              (any (λ reserved. reserved == to_ascii_lowercase (trim id)) reserved_credential_ids)
              (err (text "invalid-credential-id: '" ++ trim id ++ text "' is reserved")) _
              (λ r e. no_result e) (λ r e. other_IsCanonical id canonical (ok_inj e) d)))
      h

pub same_id-fold : (a b : Text) → same_id a b ≡ (fold a == fold b)
unfolding same_id eq_ignore_ascii_case fold
same_id-fold a b = refl

pub same_id_default :
    (a : Text) → same_id a default_credential_id ≡ (fold a == default_credential_id)
same_id_default a = rw (same_id-fold, fold_default) refl
