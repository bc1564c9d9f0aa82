-- ===== src/Api/Ota/Reservations.antt =====
-- server/src/api/ota.rs: how many uploads are reserved at once, and who may use a reservation.
use rs_matter_server.Prelude.{
  ℕ, ◌+◌, ◌≤◌, ◌≡◌, false, not, Option, none, some, List, [], ◌∷◌, ◌==◌, nat_ord, text_ord, ltb,
  leb, arith, length, length-keep, if_either, Result,
}
use rs_matter_server.Prelude.Text.{Text}
use rs_matter_server.Prelude.Map.{Map, get, remove, retain, length-insert}
use rs_matter_server.Api.Ota.{
  Reservation, OtaUploadTicket, OtaUploadRegistry, new, reserve, redeem, redeem_found, host_of,
  upload_ttl, max_in_flight_uploads,
}

-- What clients do: each with the id that was drawn, or presented, and the time.
pub data Request : Type 0 where
  reserves redeems : Text → ℕ → Text → Request

unfoldable pub run : OtaUploadRegistry → List Request → OtaUploadRegistry
run r [] = r
run r (reserves fresh now peer ∷ requests) = run (reserve fresh now peer r).1 requests
run r (redeems upload_id now peer ∷ requests) = run (redeem upload_id now peer r).1 requests

le_trans : (a b c : ℕ) → a ≤ b → b ≤ c → a ≤ c
le_trans a b c h k = omega arith

reserve-capped :
    (fresh peer : Text) (now : ℕ) (r : OtaUploadRegistry)
    → length r.reservations ≤ 4
    → length (reserve fresh now peer r).1.reservations ≤ 4
unfolding reserve retain
reserve-capped fresh peer now r h =
    let live : Map Text Reservation =
      retain (λ _ reservation. ltb now reservation.expires_at) r.reservations in
    let kept : length live ≤ 4 =
      le_trans _ _ _ (length-keep (λ e. ltb now e.1.expires_at) r.reservations) h in
    if_either {A = Result Text OtaUploadTicket × OtaUploadRegistry}
      (λ s. length s.1.reservations ≤ 4) (leb max_in_flight_uploads (length live)) _ _ (λ e. kept)
      (λ e.
        room (length live) _ e
          (length-insert fresh (record { peer = peer; expires_at = now + upload_ttl }) live))
  where
    room : (n m : ℕ) → leb 4 n ≡ false → m ≤ n + 1 → m ≤ 4
    room n m e l = ground arith

redeem_found-capped :
    (upload_id peer : Text) (now : ℕ) (r : OtaUploadRegistry) (o : Option Reservation)
    → length r.reservations ≤ 4
    → length (redeem_found upload_id now peer r o).1.reservations ≤ 4
unfolding redeem_found remove
redeem_found-capped upload_id peer now r none h = h
redeem_found-capped upload_id peer now r (some reservation) h =
    let less : length (remove upload_id r.reservations) ≤ 4 =
      le_trans _ _ _ (length-keep (λ e. not (e.0 == upload_id)) r.reservations) h in
    if_either {A = Result Text Unit × OtaUploadRegistry} (λ s. length s.1.reservations ≤ 4)
      (leb reservation.expires_at now) _ _ (λ e. less)
      (λ e.
        if_either {A = Result Text Unit × OtaUploadRegistry} (λ s. length s.1.reservations ≤ 4)
          (host_of reservation.peer == host_of peer) _ _ (λ f. less) (λ f. h))

run_from-capped :
    (r : OtaUploadRegistry) (requests : List Request)
    → length r.reservations ≤ 4
    → length (run r requests).reservations ≤ 4
unfolding run redeem
run_from-capped r [] h = h
run_from-capped r (reserves fresh now peer ∷ requests) h =
    run_from-capped (reserve fresh now peer r).1 requests (reserve-capped fresh peer now r h)
run_from-capped r (redeems upload_id now peer ∷ requests) h =
    run_from-capped (redeem upload_id now peer r).1 requests
      (redeem_found-capped upload_id peer now r (get upload_id r.reservations) h)

-- Whatever clients request and whenever, at most four reservations are held.
pub reservations_are_capped : (requests : List Request) → length (run new requests).reservations ≤ 4
unfolding new
reservations_are_capped requests = run_from-capped new requests (omega arith)

-- The registry without a reservation.
unfoldable pub without : Text → OtaUploadRegistry → OtaUploadRegistry
without upload_id r = record r { reservations = remove upload_id r.reservations }
