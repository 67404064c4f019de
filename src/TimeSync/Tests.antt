-- ===== src/TimeSync/Tests.antt =====
-- Clocks that show 100 and 250 at time 0, a request at time 10 that is read at 14 and answered at 19.
use qfabric.Prelude.{◌-◌, ◌/◌, ◌≤◌, ◌≡◌, refl, some, none, arith}
use qfabric.Prelude.Integers.{ℤ, pos, negsuc, diff, ◌+ℤ◌, -ℤ◌, halved, abs}
use qfabric.Prelude.Result.{ok, err, value_error, connection_error, timeout_error}
use qfabric.TimeSync.{
  Received, Side, epoch_req, epoch_resp, epoch_ack, sync_req, sync_resp, sync_ack, request_epoch,
  serve_epoch, sync_connecting, sync_serving, message_at, recv, is_epoch_req, recv_raw,
}
use qfabric.TimeSync.Aligned.{IsAligned, request_epoch-IsAligned}
use qfabric.TimeSync.Mirrored.{sync_link-IsMirrored}

abbrev request : Received
request = ok (some epoch_req)

abbrev response : Received
response = ok (some (epoch_resp 5000 264))

abbrev ack : Received
ack = ok (some (epoch_ack (negsuc 148) (pos 9)))

abbrev client : Side (ℤ × ℤ × ℤ)
client = request_epoch 110 response 119

abbrev master : Side (ℤ × ℤ)
master = serve_epoch 5000 request 264 ack

-- The estimate is 149 where the true offset is 150.
client_ended : client.ended ≡ ok (pos 4851, pos 149, pos 9)
unfolding request_epoch -ℤ◌ diff ◌+ℤ◌ halved
client_ended = refl

request_epoch-IsAligned_example :
    (local_epoch : ℤ) × (offset : ℤ) × (client.ended ≡ ok (local_epoch, offset, pos (19 - 10)))
    × (master.ended ≡ ok (-ℤ offset, pos (19 - 10)))
    × IsAligned 5000 100 250 (19 - 10) local_epoch offset
unfolding request_epoch serve_epoch message_at -ℤ◌ diff ◌+ℤ◌ halved
request_epoch-IsAligned_example =
    request_epoch-IsAligned 5000 100 250 10 14 19 request response ack (omega arith) (omega arith)
      refl refl refl

abbrev link_request : Received
link_request = ok (some sync_req)

abbrev link_response : Received
link_response = ok (some (sync_resp 264))

abbrev link_ack : Received
link_ack = ok (some (sync_ack (negsuc 148) (pos 9)))

sync_link-IsMirrored_example :
    (offset : ℤ) × ((sync_connecting 110 link_response 119).ended ≡ ok (offset, pos (19 - 10)))
    × ((sync_serving link_request 264 link_ack).ended ≡ ok (-ℤ offset, pos (19 - 10)))
    × (abs (offset +ℤ (-ℤ diff 250 100)) ≤ (19 - 10) - (19 - 10) / 2)
unfolding sync_connecting sync_serving message_at -ℤ◌ diff ◌+ℤ◌ halved
sync_link-IsMirrored_example =
    sync_link-IsMirrored 100 250 10 14 19 link_request link_response link_ack (omega arith)
      (omega arith) refl refl refl

-- A peer that dies, a link that closes, and a message of another kind.
silent : recv is_epoch_req (err timeout_error) ≡ err connection_error
unfolding recv recv_raw
silent = refl

gone : recv is_epoch_req (ok none) ≡ err connection_error
unfolding recv recv_raw
gone = refl

strange : recv is_epoch_req (ok (some sync_req)) ≡ err value_error
unfolding recv recv_raw
strange = refl
