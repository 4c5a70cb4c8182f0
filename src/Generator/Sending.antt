-- ===== src/Generator/Sending.antt =====
-- How a response is sent piece by piece.
use http.Base.{◌==◌, if◌then◌else◌, true, ℕ, ◌+◌, ◌-◌, ◌^◌, ◌≤◌, ◌<◌, ◌≡◌, ◌↔◌, false, arith}
use http.Base.Int.{pos}
use http.Generator.{Generator, msg_update_send_metadata}

-- In header mode, after a write of `n` bytes of those left, a 32-bit number: the body is next
-- exactly if `n` is half of what was left, and the call never says that the response is complete.
pub msg_update_send_metadata-switches :
    (g : Generator) (n : ℕ)
    → g.send_type ≡ 1
    → n ≤ g.header_remaining_bytes
    → g.header_remaining_bytes < 2 ^ 32
    → (((msg_update_send_metadata (pos n) g).0.send_type ≡ 2) ↔ (g.header_remaining_bytes ≡ n + n))
      × ((msg_update_send_metadata (pos n) g).1 ≡ false)
unfolding msg_update_send_metadata
msg_update_send_metadata-switches g n header h b = ground arith

-- In body mode, after a write of `n` bytes of those left, a 32-bit number: the call says that the
-- response is complete exactly if `n` is half of what was left, and then nothing is left;
-- otherwise the rest is what the write has not sent, and the mode stays either way.
pub msg_update_send_metadata-completes :
    (g : Generator) (n : ℕ)
    → g.send_type ≡ 2
    → n ≤ g.body_remaining_bytes
    → g.body_remaining_bytes < 2 ^ 32
    → (((msg_update_send_metadata (pos n) g).1 ≡ true) ↔ (g.body_remaining_bytes ≡ n + n))
      × (((msg_update_send_metadata (pos n) g).0.body_remaining_bytes
            ≡ (if g.body_remaining_bytes == n + n then 0 else g.body_remaining_bytes - n))
          × ((msg_update_send_metadata (pos n) g).0.send_type ≡ 2))
unfolding msg_update_send_metadata
msg_update_send_metadata-completes g n body h b = ground arith
