-- ===== src/Message/Open.antt =====
-- The decoders of an OPEN and of its optional parameters in src/message.rs.
use amnesia_bgp.Base.{
  ℕ, zero, suc, ◌-◌, ◌^◌, Bool, none, some, [], ◌∷◌, ◌++◌, ltb, not, ◌&&◌, ◌||◌, ◌==◌,
  if◌then◌else◌,
}
use amnesia_bgp.Error.{
  unsupported_version_number, bad_bgp_identifier, unsupported_optional_parameter,
  unacceptable_hold_time, unsupported_capability, new_open,
}
use amnesia_bgp.Extern.{
  Extern, Parser, pure, fail, require, ◌>>=◌, ◌>>◌, get_u8, get_u16, get_u32, skip,
}
use amnesia_bgp.Message.Types.{MpExtCap, FourOctetAsCap, OptParams, OpenMsg}

-- `opt_params.mp_ext_caps.get_or_insert(Vec::new()).push(c)`
abbrev pub push_cap : MpExtCap → OptParams → OptParams
push_cap c ps = record ps {
  mp_ext_caps = some (elim ps.mp_ext_caps [ none ↦ c ∷ [] | some cs ↦ cs ++ (c ∷ []) ]);
}

module _ {X : Extern} where
  unfoldable pub decode_mp_ext_cap : Parser X MpExtCap
  decode_mp_ext_cap = do
    afi ← get_u16
    skip 1
    safi ← get_u8
    pure (record { afi = afi; safi = safi })

  unfoldable pub decode_four_octet_as_cap : Parser X FourOctetAsCap
  decode_four_octet_as_cap = do n ← get_u32; pure (record { as_num = n })

  -- One round of the loop over the parameters.
  unfoldable pub decode_opt_param : Bool → OptParams → Parser X OptParams
  decode_opt_param ext_op ps = do
    param_type ← get_u8
    param_len ← if ext_op then get_u16 else get_u8
    if param_type == 1
        then (do
          require (param_len == 4) (new_open unsupported_capability none)
          c ← decode_mp_ext_cap
          pure (push_cap c ps))
        else (if param_type == 63
            then (do
              require (param_len == 4) (new_open unsupported_capability none)
              c ← decode_four_octet_as_cap
              pure (record ps { four_octet_as_cap = some c }))
            else fail (new_open unsupported_optional_parameter none))

  -- `for _ in 0..opt_params_len`
  unfoldable pub decode_opt_params_from : ℕ → Bool → OptParams → Parser X OptParams
  decode_opt_params_from zero ext_op ps = pure ps
  decode_opt_params_from (suc n) ext_op ps = do
    ps' ← decode_opt_param ext_op ps
    decode_opt_params_from n ext_op ps'

  unfoldable pub decode_opt_params : ℕ → Bool → Parser X OptParams
  decode_opt_params opt_params_len ext_op =
      decode_opt_params_from opt_params_len ext_op
        (record { mp_ext_caps = none; four_octet_as_cap = none })

  unfoldable pub decode_open : Parser X OpenMsg
  decode_open = do
    version ← get_u8
    require (version == 4) (new_open unsupported_version_number none)
    skip 3
    as_number ← get_u16
    skip 2
    hold_time ← get_u16
    require (not (not (hold_time == 0) && ltb hold_time 3)) (new_open unacceptable_hold_time none)
    skip 2
    bgp_identifier ← get_u32
    require (not (bgp_identifier == 0 || bgp_identifier == 2 ^ 32 - 1))
        (new_open bad_bgp_identifier none)
    non_ext_op_len ← get_u8
    non_ext_op_type ← get_u8
    ext_opt_parm_len ← get_u16
    let ext = non_ext_op_type == 255
    let opt_params_len = if ext then ext_opt_parm_len else non_ext_op_len
    opt_params ← decode_opt_params opt_params_len ext
    pure (record {
      version = version;
      as_number = as_number;
      hold_time = hold_time;
      bgp_identifier = bgp_identifier;
      ext_opt_param = ext;
      opt_params_len = opt_params_len;
      opt_params = opt_params;
    })
