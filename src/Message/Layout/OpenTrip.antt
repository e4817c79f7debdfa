-- ===== src/Message/Layout/OpenTrip.antt =====
-- `OpenMsg::decode` of src/message.rs on an OPEN that is laid out.
use amnesia_bgp.Base.{
  ℕ, ◌+◌, ◌-◌, ◌^◌, Bool, true, false, List, [], ◌∷◌, ◌++◌, length, length-append, arith, ◌≡◌, ◌≢◌,
  refl, ◌∙◌, ◌≤◌, ◌⊎◌, none, ◌==◌, if◌then◌else◌,
}
use amnesia_bgp.Error.{unsupported_version_number, new_open}
use amnesia_bgp.Extern.{
  Extern, Parser, pure, ◌>>=◌, get_u8, get_u16, slices, slice_of, Lawful, view, map_outcome, id, ok,
  Takes, Takes-u8, Takes-u16, Takes-u32, Takes-skip, Takes-pure, Takes-require, Takes-then,
  Takes-last, u16_bytes, u32_bytes, layout_all,
}
use amnesia_bgp.Message.Types.{OpenMsg}
use amnesia_bgp.Message.Open.{decode_opt_params, decode_open}
use amnesia_bgp.Message.Acceptable.{IsAcceptable}
use amnesia_bgp.Message.Refine.{decode_open-Sim}
use amnesia_bgp.Message.Layout.OpenBytes.{
  Param, param_bytes, add_params, no_params, params_of, IsTidy, params-Takes, add_params-params_of,
  count_bytes, open_bytes, hold-test, ident-test,
}

-- What `decode_open` does behind the identifier.
abbrev decode_tail : ℕ → ℕ → ℕ → Parser slices OpenMsg
decode_tail a h i = do
  non_ext_op_len ← get_u8
  non_ext_op_type ← get_u8
  ext_opt_parm_len ← get_u16
  let ext = non_ext_op_type == 255
  let opt_params_len = if ext then ext_opt_parm_len else non_ext_op_len
  opt_params ← decode_opt_params opt_params_len ext
  pure (record {
    version = 4;
    as_number = a;
    hold_time = h;
    bgp_identifier = i;
    ext_opt_param = ext;
    opt_params_len = opt_params_len;
    opt_params = opt_params;
  })

abbrev opened : ℕ → ℕ → ℕ → Bool → List Param → OpenMsg
opened a h i ext xs = record {
  version = 4;
  as_number = a;
  hold_time = h;
  bgp_identifier = i;
  ext_opt_param = ext;
  opt_params_len = length xs;
  opt_params = add_params xs no_params;
}

tail-Takes :
    (a h i : ℕ) (ext : Bool) (xs : List Param) (rest : List ℕ)
    → Takes
        (decode_tail a h i)
        (count_bytes ext (length xs) ++ layout_all (param_bytes ext) xs)
        rest
        (opened a h i ext xs)
unfolding decode_opt_params
tail-Takes a h i true xs rest = Takes-then _ _ (0 ∷ []) (Takes-u8 0) (
    Takes-then _ _ (255 ∷ []) (Takes-u8 255) (
      Takes-then _ _ (u16_bytes (length xs)) (Takes-u16 (length xs)) (
        Takes-last _ _ (layout_all (param_bytes true) xs) (params-Takes true xs no_params rest)
          (Takes-pure _))))
tail-Takes a h i false xs rest = Takes-then _ _ (length xs ∷ []) (Takes-u8 (length xs)) (
    Takes-then _ _ (0 ∷ []) (Takes-u8 0) (
      Takes-then _ _ (0 ∷ 0 ∷ []) (Takes-u16 0) (
        Takes-last _ _ (layout_all (param_bytes false) xs) (params-Takes false xs no_params rest)
          (Takes-pure _))))

-- The decoder at the fields of an OPEN and a list of parameters.
fields-Takes :
    (a h i : ℕ) (ext : Bool) (xs : List Param) (rest : List ℕ)
    → (h ≡ 0) ⊎ (3 ≤ h)
    → i ≢ 0
    → i ≢ 2 ^ 32 - 1
    → Takes decode_open
        (4
          ∷ (0 ∷ 0 ∷ 0 ∷ u16_bytes a
              ++ (0 ∷ 0 ∷ u16_bytes h
                  ++ (0 ∷ 0 ∷ u32_bytes i
                      ++ (count_bytes ext (length xs) ++ layout_all (param_bytes ext) xs)))))
        rest
        (opened a h i ext xs)
unfolding decode_open
fields-Takes a h i ext xs rest hh n m = Takes-then _ _ (4 ∷ []) (Takes-u8 4) (
    Takes-then _ _ [] (Takes-require (new_open unsupported_version_number none) refl) (
      Takes-then _ _ (0 ∷ 0 ∷ 0 ∷ []) (Takes-skip (0 ∷ 0 ∷ 0 ∷ []) refl) (
        Takes-then _ _ (u16_bytes a) (Takes-u16 a) (
          Takes-then _ _ (0 ∷ 0 ∷ []) (Takes-skip (0 ∷ 0 ∷ []) refl) (
            Takes-then _ _ (u16_bytes h) (Takes-u16 h) (
              Takes-then _ _ [] (Takes-require _ (hold-test h hh)) (
                Takes-then _ _ (0 ∷ 0 ∷ []) (Takes-skip (0 ∷ 0 ∷ []) refl) (
                  Takes-then _ _ (u32_bytes i) (Takes-u32 i) (
                    Takes-then _ _ [] (Takes-require _ (ident-test i n m))
                      (tail-Takes a h i ext xs rest))))))))))

-- The fields and their padding are twenty bytes.
count_size : (ext : Bool) (n : ℕ) → length (count_bytes ext n) ≡ 4
count_size true n = refl
count_size false n = refl

pub open_bytes_size : (m : OpenMsg) → 20 ≤ length (open_bytes m)
open_bytes_size m =
    rw
      (
        length-append (count_bytes m.ext_opt_param m.opt_params_len)
            (layout_all (param_bytes m.ext_opt_param) (params_of m.opt_params)),
        count_size m.ext_opt_param m.opt_params_len,
      )
      (omega arith)

-- An acceptable OPEN whose parameters are counted.
abbrev pub IsCounted : OpenMsg → Type 0
IsCounted m = IsTidy m.opt_params × (m.opt_params_len ≡ length (params_of m.opt_params))

pub open_bytes-Takes :
    (m : OpenMsg) (rest : List ℕ)
    → IsAcceptable m
    → IsCounted m
    → Takes decode_open (open_bytes m) rest m
open_bytes-Takes m rest (v, hh, p, q) (tidy, n) =
    rw (v, n)
      (rw (add_params-params_of m.opt_params tidy) at (
        fields-Takes m.as_number m.hold_time m.bgp_identifier m.ext_opt_param
          (params_of m.opt_params) rest hh p q))

-- Over a lawful crate an acceptable OPEN, whose parameters are counted in its length and are in both
-- formats either capabilities or the number of its autonomous system, is decoded to itself from the
-- layout that the decoder reads, whatever stands behind it; the buffer is left behind the layout. That
-- layout is not the documented one: seven bytes of padding stand between the fields, so that it has
-- twenty bytes at least, and the length of the parameters is their number, not that of their bytes.
pub decode_open-open_bytes :
    (X : Extern) (o : X.Octets) (m : OpenMsg) (rest : List ℕ)
    → Lawful X
    → view X o ≡ slice_of (open_bytes m ++ rest)
    → IsAcceptable m
    → IsCounted m
    → (20 ≤ length (open_bytes m))
      × (map_outcome X id ((decode_open {X = X}).run o)
          ≡ ok (
            m,
            record { whole = open_bytes m ++ rest; pos = 0 + length (open_bytes m); rest = rest },
          ))
decode_open-open_bytes X o m rest L v a c = (
  open_bytes_size m,
  (decode_open-Sim L).same o ∙ rw v ((open_bytes-Takes m rest a c).taken (open_bytes m ++ rest) 0),
)
