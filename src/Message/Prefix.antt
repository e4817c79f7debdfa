-- ===== src/Message/Prefix.antt =====
-- `Cidr::decode` of src/message.rs.
use amnesia_bgp.Base.{ℕ, ◌+◌, ◌-◌, ◌/◌, ◌%◌, Bool, ◌++◌, replicate, ltb, not, ◌&&◌, if◌then◌else◌}
use amnesia_bgp.Net.{from_be_bytes, v4, v6}
use amnesia_bgp.Extern.{Extern, Parser, pure, panic, ◌>>=◌, get_u8, get_bytes, unwrap_array}
use amnesia_bgp.Message.Types.{Cidr}

module _ {X : Extern} (overflow_checks : Bool) where
  -- `(length + 7) / 8` on a `u8`.
  abbrev pub round_up : ℕ → Parser X ℕ
  round_up len =
      if overflow_checks && not (ltb (len + 7) 256) then panic else pure ((len + 7) % 256 / 8)

  unfoldable pub decode_cidr : Parser X Cidr
  decode_cidr = do
    len ← get_u8
    padded_length ← round_up len
    sub ← get_bytes padded_length
    if ltb 4 padded_length
        then (do
          bs ← unwrap_array 16 (X.to_vec sub ++ replicate (16 - padded_length) 0)
          pure (record { len = len; prefix = v6 (from_be_bytes 0 bs) }))
        else (do
          bs ← unwrap_array 4 (X.to_vec sub ++ replicate (4 - padded_length) 0)
          pure (record { len = len; prefix = v4 (from_be_bytes 0 bs) }))
