-- ===== src/Api/Ota/Images.antt =====
-- server/src/api/ota.rs: which firmware image is offered, and that it is read back as it was stored.
use Prim.Native.Nat.{zero, suc, min}
use rs_matter_server.Prelude.{
  ℕ, ◌+◌, ◌-◌, ◌≤◌, ◌<◌, ◌≡◌, ◌⊎◌, ap, ◌∙◌, refl, Bool, true, false, not, ◌||◌, Option, none, some,
  List, [], ◌∷◌, ◌++◌, ◌==◌, nat_ord, leb, leb→le, arith, keep, find, length, take, drop, get_elem?,
  if◌then◌else◌, Bool-cases, Option-cases, inl, inr, take-append-drop, drop-drop, length-drop,
  length-take,
}
use rs_matter_server.Api.Ota.{
  StoredImage, OtaUploadRegistry, matches, store, applies, newest, best_match, find_image,
  read_image,
}

-- An image with the three numbers is the one stored last with them.
pub find_image-store :
    (vid pid version : ℕ) (image : StoredImage) (r : OtaUploadRegistry)
    → find_image vid pid version (store image r)
      ≡ (if matches vid pid version image then some image else find_image vid pid version r)
unfolding find_image store matches
find_image-store vid pid version image r = go r.images
  where
    go :
        (images : List StoredImage)
        → find (matches vid pid version) (
            keep
              (λ existing.
                not (existing.version.vid == image.version.vid)
                || not (existing.version.pid == image.version.pid)
                || not (existing.version.software_version == image.version.software_version))
              images
            ++ (image ∷ []))
          ≡ (if matches vid pid version image
              then some image
              else find (matches vid pid version) images)
    go [] = refl
    go (i ∷ images) = ground (arith, go images)

abbrev at_most : ℕ → Option StoredImage → Bool
at_most n none = false
at_most n (some best) = leb n best.version.software_version

newest_bounds :
    (p : StoredImage → Bool) (images : List StoredImage) (i : ℕ) (image : StoredImage)
    → get_elem? images i ≡ some image
    → p image ≡ true
    → at_most image.version.software_version (newest (keep p images)) ≡ true
unfolding newest
newest_bounds p [] i image h q = cc
newest_bounds p (x ∷ images) zero image h q =
    let same : x ≡ image = some_inj h in rw same (newest_bounds_head p image images q)
  where
    some_inj : {a b : StoredImage} → some a ≡ some b → a ≡ b
    some_inj h = cc

    newest_bounds_head :
        (p : StoredImage → Bool) (x : StoredImage) (images : List StoredImage)
        → p x ≡ true
        → at_most x.version.software_version (newest (keep p (x ∷ images))) ≡ true
    newest_bounds_head p x images q = ground arith
newest_bounds p (x ∷ images) (suc i) image h q = ground (arith, newest_bounds p images i image h q)

newest_cases :
    (p : StoredImage → Bool) (x : StoredImage) (images : List StoredImage) (best : StoredImage)
    → newest (keep p (x ∷ images)) ≡ some best
    → ((best ≡ x) × (p x ≡ true)) ⊎ (newest (keep p images) ≡ some best)
unfolding newest
newest_cases p x images best h = ground arith

newest_is_stored :
    (p : StoredImage → Bool) (images : List StoredImage) (best : StoredImage)
    → newest (keep p images) ≡ some best
    → (j : ℕ) × (get_elem? images j ≡ some best) × (p best ≡ true)
unfolding newest
newest_is_stored p [] best h = cc
newest_is_stored p (x ∷ images) best h = elim (newest_cases p x images best h) [
  | inl (e, q) ↦ (zero, rw e refl, rw e q)
  | inr found ↦ let (j, g, q) = newest_is_stored p images best found in (suc j, g, q)
]

-- A device that some stored image applies to is offered one: it applies, it is stored, and no stored
-- image that applies is newer.
pub best_match_is_newest :
    (vid pid current i : ℕ) (image : StoredImage) (r : OtaUploadRegistry)
    → get_elem? r.images i ≡ some image
    → applies vid pid current image ≡ true
    → (best : StoredImage) × (j : ℕ) × (best_match vid pid current r ≡ some best.version)
      × (get_elem? r.images j ≡ some best)
      × (applies vid pid current best ≡ true)
      × (image.version.software_version ≤ best.version.software_version)
unfolding best_match
best_match_is_newest vid pid current i image r h q =
    elim (Option-cases (newest (keep (applies vid pid current) r.images))) [
      | inl e ↦
          none_is_newest image.version.software_version e
            (newest_bounds (applies vid pid current) r.images i image h q)
      | inr (best, e) ↦
          let (j, g, a) = newest_is_stored (applies vid pid current) r.images best e in
          (
            best,
            j,
            rw (best_match, e) refl,
            g,
            a,
            bound image.version.software_version e
                (newest_bounds (applies vid pid current) r.images i image h q),
          )
    ]
  where
    none_is_newest :
        {P : Type 0} {o : Option StoredImage} (n : ℕ) → o ≡ none → at_most n o ≡ true → P
    none_is_newest n e h = cc

    bound :
        {o : Option StoredImage} {best : StoredImage} (n : ℕ)
        → o ≡ some best
        → at_most n o ≡ true
        → n ≤ best.version.software_version
    bound n e h = ground arith

after_block : List ℕ → Option (List ℕ) → Option (List ℕ)
after_block block none = none
after_block block (some rest) = some (block ++ rest)

-- A reader that asks for blocks of `room` bytes, each from where the last ended, until one is empty.
unfoldable pub read_all : ℕ → ℕ → ℕ → ℕ → ℕ → ℕ → OtaUploadRegistry → Option (List ℕ)
unfolding after_block
read_all zero vid pid version offset room r = none
read_all (suc fuel) vid pid version offset room r =
    elim (read_image vid pid version offset room r) [
      | none ↦ none
      | some [] ↦ some []
      | some (b ∷ block) ↦
          after_block (b ∷ block)
            (read_all fuel vid pid version (offset + length (b ∷ block)) room r)
    ]

drop_past : (offset : ℕ) (bytes : List ℕ) → length bytes ≤ offset → drop offset bytes ≡ []
drop_past zero [] h = refl
drop_past zero (b ∷ bytes) h = ground arith
drop_past (suc offset) [] h = refl
drop_past (suc offset) (b ∷ bytes) h = drop_past offset bytes (omega arith)

module _ (vid pid version room : ℕ) (r : OtaUploadRegistry) where
  read_step :
      (fuel offset : ℕ) (block rest : List ℕ)
      → read_image vid pid version offset room r ≡ some block
      → 1 ≤ length block
      → read_all fuel vid pid version (offset + length block) room r ≡ some rest
      → read_all (suc fuel) vid pid version offset room r ≡ some (block ++ rest)
  unfolding read_all after_block
  read_step fuel offset [] rest e l k = ground arith
  read_step fuel offset (b ∷ block) rest e l k = rw (read_all, e) (ap (after_block (b ∷ block)) k)

  read_end :
      (fuel offset : ℕ)
      → read_image vid pid version offset room r ≡ some []
      → read_all (suc fuel) vid pid version offset room r ≡ some []
  unfolding read_all
  read_end fuel offset e = rw (read_all, e) refl

  lt_of_more : {n m : ℕ} → leb n m ≡ false → m < n
  lt_of_more h = ground arith

  block_read :
      (image : StoredImage) (offset : ℕ)
      → find_image vid pid version r ≡ some image
      → leb (length image.bytes) offset ≡ false
      → read_image vid pid version offset room r
        ≡ some (take (min (length (drop offset image.bytes)) room) (drop offset image.bytes))
  unfolding read_image
  block_read image offset found more = rw (read_image, found, more) refl

  end_read :
      (image : StoredImage) (offset : ℕ)
      → find_image vid pid version r ≡ some image
      → leb (length image.bytes) offset ≡ true
      → read_image vid pid version offset room r ≡ some []
  unfolding read_image
  end_read image offset found past = rw (read_image, found, past) refl

  read_from :
      (image : StoredImage) (fuel offset : ℕ)
      → find_image vid pid version r ≡ some image
      → 1 ≤ room
      → length image.bytes < fuel + offset
      → offset ≤ length image.bytes
      → read_all fuel vid pid version offset room r ≡ some (drop offset image.bytes)
  read_from image zero offset found wide enough inside = ground arith
  read_from image (suc fuel) offset found wide enough inside =
      elim (Bool-cases (leb (length image.bytes) offset)) [
        | inl past ↦
            rw (drop_past offset image.bytes (leb→le _ _ past))
              (read_end fuel offset (end_read image offset found past))
        | inr more ↦
            let remaining : List ℕ = drop offset image.bytes in
            let n : ℕ = min (length remaining) room in
            let block : List ℕ = take n remaining in
            let size : length block ≡ n = omega (arith, length-take n remaining) in
            let left : length remaining ≡ length image.bytes - offset =
              length-drop offset image.bytes in
            let some_left : 1 ≤ length block = omega (arith, size, left, lt_of_more more) in
            let rest =
              read_from image fuel (offset + length block) found wide (omega arith) (omega arith) in
            let whole : block ++ drop (offset + length block) image.bytes ≡ remaining =
              rw (← drop-drop offset (length block) image.bytes, size)
                (take-append-drop n remaining) in
            read_step fuel offset block (drop (offset + length block) image.bytes)
              (block_read image offset found more) some_left rest
            ∙ ap some whole
      ]

  -- Reading a stored image block by block, each from where the last ended, ends after at most one
  -- block for each byte and one more, and gives the image's bytes, for any size of block but zero.
  pub read_all_gives_image :
      (image : StoredImage)
      → find_image vid pid version r ≡ some image
      → 1 ≤ room
      → read_all (suc (length image.bytes)) vid pid version 0 room r ≡ some image.bytes
  read_all_gives_image image found wide =
      read_from image (suc (length image.bytes)) 0 found wide (omega arith) (omega arith)
