-- ===== src/Api/Ota.antt =====
-- server/src/api/ota.rs: the upload reservations and the firmware images held in memory.
pub mod Reservations
pub mod Images
mod Tests
use rs_matter_server.Prelude.{
  ℕ, ◌+◌, ◌-◌, ◌*◌, ◌≤◌, ◌<◌, Bool, true, false, not, ◌&&◌, ◌||◌, Option, none, some, List, [], ◌∷◌,
  ◌++◌, ◌==◌, nat_ord, text_ord, ltb, leb, keep, any, find, length, take, drop, if◌then◌else◌,
  Result, ok, err,
}
use Prim.Native.Nat.{min}
use rs_matter_server.Prelude.Text.{Text, text}
use rs_matter_server.Prelude.Map.{Map, get, insert, remove, retain}

-- Sixty seconds, in milliseconds, as all times here.
abbrev pub upload_ttl : ℕ
upload_ttl = 60000

abbrev pub max_upload_size : ℕ
max_upload_size = 64 * 1024 * 1024

abbrev pub max_in_flight_uploads : ℕ
max_in_flight_uploads = 4

pub record Reservation : Type 0 where
  pub peer : Text
  pub expires_at : ℕ

pub record OtaUploadTicket : Type 0 where
  pub upload_id : Text
  pub expires_in : ℕ
  pub max_size : ℕ

-- Of `MatterSoftwareVersion`, what the store goes by.
pub record SoftwareVersion : Type 0 where
  pub vid : ℕ
  pub pid : ℕ
  pub software_version : ℕ
  pub min_applicable : ℕ
  pub max_applicable : ℕ

pub record StoredImage : Type 0 where
  pub version : SoftwareVersion
  pub bytes : List ℕ

pub record OtaUploadRegistry : Type 0 where
  pub reservations : Map Text Reservation
  pub images : List StoredImage

unfoldable pub new : OtaUploadRegistry
new = record { reservations = []; images = [] }

-- A fresh id comes from `uuid`, the time from the clock.
unfoldable pub reserve :
    Text → ℕ → Text → OtaUploadRegistry → Result Text OtaUploadTicket × OtaUploadRegistry
reserve fresh now peer r =
    let live : Map Text Reservation =
      retain (λ _ reservation. ltb now reservation.expires_at) r.reservations in
    let reservation : Reservation = record { peer = peer; expires_at = now + upload_ttl } in
    if leb max_in_flight_uploads (length live)
    then (
      err (text "Too many uploads are already in flight; retry once one completes or expires"),
      record r { reservations = live },
    )
    else (
      ok (record { upload_id = fresh; expires_in = 60; max_size = max_upload_size }),
      record r { reservations = insert fresh reservation live },
    )

-- `rfind`: what stands before the last colon, and what after it.
split_last : Text → Option (Text × Text)
split_last [] = none
split_last (c ∷ s) = elim (split_last s) [
  | some (before, after) ↦ some (c ∷ before, after)
  | none ↦ if c == b':' then some ([], s) else none
]

-- The peer's address without the port, where there is one.
unfoldable pub host_of : Text → Text
unfolding split_last
host_of peer = elim (split_last peer) [
  | some (before, after) ↦ if any (λ c. c == b']') after then peer else before
  | none ↦ peer
]

redeem_found :
    Text → ℕ → Text → OtaUploadRegistry → Option Reservation → Result Text Unit × OtaUploadRegistry
redeem_found upload_id now peer r none = (err (text "Unknown or already-used upload id"), r)
redeem_found upload_id now peer r (some reservation) =
    let without : OtaUploadRegistry = record r { reservations = remove upload_id r.reservations } in
    if leb reservation.expires_at now
    then (err (text "The upload id has expired"), without)
    else if host_of reservation.peer == host_of peer
    then (ok tt, without)
    else (err (text "The upload id was reserved by a different client"), r)

unfoldable pub redeem : Text → ℕ → Text → OtaUploadRegistry → Result Text Unit × OtaUploadRegistry
unfolding redeem_found
redeem upload_id now peer r = redeem_found upload_id now peer r (get upload_id r.reservations)

-- Whether this is the image that a device asking for that exact version wants.
unfoldable pub matches : ℕ → ℕ → ℕ → StoredImage → Bool
matches vendor_id product_id version image =
    image.version.vid == vendor_id
    && image.version.pid == product_id
    && image.version.software_version == version

unfoldable pub store : StoredImage → OtaUploadRegistry → OtaUploadRegistry
store image r = record r {
  images =
      keep
        (λ existing.
          not (existing.version.vid == image.version.vid)
          || not (existing.version.pid == image.version.pid)
          || not (existing.version.software_version == image.version.software_version))
        r.images
      ++ (image ∷ []);
}

unfoldable pub applies : ℕ → ℕ → ℕ → StoredImage → Bool
applies vendor_id product_id current_version image =
    image.version.vid == vendor_id
    && image.version.pid == product_id
    && ltb current_version image.version.software_version
    && leb image.version.min_applicable current_version
    && leb current_version image.version.max_applicable

-- `max_by_key`: of several greatest, the last.
unfoldable pub newest : List StoredImage → Option StoredImage
newest [] = none
newest (image ∷ images) = elim (newest images) [
  | none ↦ some image
  | some best ↦
      if leb image.version.software_version best.version.software_version
      then some best
      else some image
]

unfoldable pub best_match : ℕ → ℕ → ℕ → OtaUploadRegistry → Option SoftwareVersion
best_match vendor_id product_id current_version r =
    elim (newest (keep (applies vendor_id product_id current_version) r.images)) [
      | none ↦ none
      | some image ↦ some image.version
    ]

unfoldable pub find_image : ℕ → ℕ → ℕ → OtaUploadRegistry → Option StoredImage
find_image vendor_id product_id version r = find (matches vendor_id product_id version) r.images

unfoldable pub image_size : ℕ → ℕ → ℕ → OtaUploadRegistry → Option ℕ
unfolding find_image
image_size vendor_id product_id version r = elim (find_image vendor_id product_id version r) [
  | none ↦ none
  | some image ↦ some (length image.bytes)
]

-- What is copied into a buffer of `room` bytes; an offset fits `usize`, which has 64 bits here.
unfoldable pub read_image : ℕ → ℕ → ℕ → ℕ → ℕ → OtaUploadRegistry → Option (List ℕ)
unfolding find_image
read_image vendor_id product_id version offset room r =
    elim (find_image vendor_id product_id version r) [
      | none ↦ none
      | some image ↦
          if leb (length image.bytes) offset
          then some []
          else (let remaining : List ℕ = drop offset image.bytes in
              some (take (min (length remaining) room) remaining))
    ]
