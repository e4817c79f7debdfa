-- ===== src/Message/Layout/OpenBytes.antt =====
-- The layout of an OPEN, and what the decoders of its parameters make of it.
use amnesia_bgp.Base.{
  ℕ, ◌-◌, ◌^◌, Bool, true, false, Option, none, some, List, [], ◌∷◌, ◌++◌, map, length, ltb, not,
  ◌&&◌, ◌||◌, ◌==◌, ◌≡◌, ◌≢◌, refl, ◌∙◌, arith, ◌≤◌, ◌⊎◌, if◌then◌else◌,
}
use mathlib.Core.List.{append-nil, append_assoc}
use amnesia_bgp.Error.{unsupported_capability, new_open}
use amnesia_bgp.Extern.{
  Takes, Takes-u8, Takes-u16, Takes-u32, Takes-skip, Takes-pure, Takes-require, Takes-then, get_u16,
  get_u8, u16_bytes, u32_bytes, layout_all,
}
use amnesia_bgp.Message.Types.{MpExtCap, FourOctetAsCap, OptParams, OpenMsg}
use amnesia_bgp.Message.Open.{
  push_cap, decode_mp_ext_cap, decode_four_octet_as_cap, decode_opt_param, decode_opt_params_from,
}

pub data Param : Type 0 where
  mp_ext : MpExtCap → Param
  four_octet_as : FourOctetAsCap → Param

-- A length is two bytes long in the extended format.
abbrev pub param_len : Bool → List ℕ
param_len ext = if ext then u16_bytes 4 else 4 ∷ []

abbrev pub param_bytes : Bool → Param → List ℕ
param_bytes ext (mp_ext c) = 1 ∷ (param_len ext ++ (u16_bytes c.afi ++ (0 ∷ c.safi ∷ [])))
param_bytes ext (four_octet_as c) = 63 ∷ (param_len ext ++ u32_bytes c.as_num)

abbrev pub add_param : Param → OptParams → OptParams
add_param (mp_ext c) ps = push_cap c ps
add_param (four_octet_as c) ps = record ps { four_octet_as_cap = some c }

abbrev pub add_params : List Param → OptParams → OptParams
add_params [] ps = ps
add_params (x ∷ xs) ps = add_params xs (add_param x ps)

param_len-Takes :
    (ext : Bool) (rest : List ℕ) → Takes (if ext then get_u16 else get_u8) (param_len ext) rest 4
param_len-Takes true rest = Takes-u16 4
param_len-Takes false rest = Takes-u8 4

mp_ext-Takes :
    (c : MpExtCap) (rest : List ℕ)
    → Takes decode_mp_ext_cap (u16_bytes c.afi ++ (0 ∷ c.safi ∷ [])) rest c
unfolding decode_mp_ext_cap
mp_ext-Takes c rest = Takes-then _ _ (u16_bytes c.afi) (Takes-u16 c.afi) (
    Takes-then _ _ (0 ∷ []) (Takes-skip (0 ∷ []) refl)
      (Takes-then _ _ (c.safi ∷ []) (Takes-u8 c.safi) (Takes-pure _)))

four_octet_as-Takes :
    (c : FourOctetAsCap) (rest : List ℕ)
    → Takes decode_four_octet_as_cap (u32_bytes c.as_num) rest c
unfolding decode_four_octet_as_cap
four_octet_as-Takes c rest = Takes-then _ _ (u32_bytes c.as_num) (Takes-u32 c.as_num) (Takes-pure _)

param-Takes :
    (ext : Bool) (x : Param) (ps : OptParams) (rest : List ℕ)
    → Takes (decode_opt_param ext ps) (param_bytes ext x) rest (add_param x ps)
unfolding decode_opt_param
param-Takes ext (mp_ext c) ps rest = Takes-then _ _ (1 ∷ []) (Takes-u8 1) (
    Takes-then _ _ (param_len ext) (param_len-Takes ext _) (
      Takes-then _ _ [] (Takes-require (new_open unsupported_capability none) refl)
        (Takes-then _ _ (u16_bytes c.afi ++ (0 ∷ c.safi ∷ [])) (mp_ext-Takes c _) (Takes-pure _))))
param-Takes ext (four_octet_as c) ps rest = Takes-then _ _ (63 ∷ []) (Takes-u8 63) (
    Takes-then _ _ (param_len ext) (param_len-Takes ext _) (
      Takes-then _ _ [] (Takes-require (new_open unsupported_capability none) refl)
        (Takes-then _ _ (u32_bytes c.as_num) (four_octet_as-Takes c _) (Takes-pure _))))

pub params-Takes :
    (ext : Bool) (xs : List Param) (ps : OptParams) (rest : List ℕ)
    → Takes
        (decode_opt_params_from (length xs) ext ps)
        (layout_all (param_bytes ext) xs)
        rest
        (add_params xs ps)
unfolding decode_opt_params_from
params-Takes ext [] ps rest = Takes-pure ps
params-Takes ext (x ∷ xs) ps rest =
    Takes-then _ _ (param_bytes ext x) (param-Takes ext x ps _)
      (params-Takes ext xs (add_param x ps) rest)

-- The parameters that an OPEN's optional parameters stand for.
abbrev pub list_caps : Option (List MpExtCap) → List Param
list_caps none = []
list_caps (some cs) = map mp_ext cs

abbrev pub list_four : Option FourOctetAsCap → List Param
list_four none = []
list_four (some c) = four_octet_as c ∷ []

abbrev pub params_of : OptParams → List Param
params_of ps = list_caps ps.mp_ext_caps ++ list_four ps.four_octet_as_cap

abbrev pub no_params : OptParams
no_params = record { mp_ext_caps = none; four_octet_as_cap = none }

add_params-append :
    (xs ys : List Param) (ps : OptParams)
    → add_params (xs ++ ys) ps ≡ add_params ys (add_params xs ps)
add_params-append [] ys ps = refl
add_params-append (x ∷ xs) ys ps = add_params-append xs ys (add_param x ps)

add_params-caps :
    (cs ds : List MpExtCap) (f : Option FourOctetAsCap)
    → add_params (map mp_ext cs) (record { mp_ext_caps = some ds; four_octet_as_cap = f })
      ≡ record { mp_ext_caps = some (ds ++ cs); four_octet_as_cap = f }
add_params-caps [] ds f = rw (append-nil ds) refl
add_params-caps (c ∷ cs) ds f =
    add_params-caps cs (ds ++ (c ∷ [])) f ∙ rw (append_assoc ds (c ∷ []) cs) refl

add_params-list_four :
    (o : Option FourOctetAsCap) (caps : Option (List MpExtCap))
    → add_params (list_four o) (record { mp_ext_caps = caps; four_octet_as_cap = none })
      ≡ record { mp_ext_caps = caps; four_octet_as_cap = o }
add_params-list_four none caps = refl
add_params-list_four (some c) caps = refl

-- The list of capabilities is absent when there is none.
abbrev pub IsTidy : OptParams → Type 0
IsTidy ps = ps.mp_ext_caps ≢ some []

add_params-list_caps :
    (o : Option (List MpExtCap))
    → o ≢ some []
    → add_params (list_caps o) no_params ≡ record { mp_ext_caps = o; four_octet_as_cap = none }
add_params-list_caps none h = refl
add_params-list_caps (some []) h = absurd (h refl)
add_params-list_caps (some (c ∷ cs)) h = add_params-caps cs (c ∷ []) none

pub add_params-params_of : (ps : OptParams) → IsTidy ps → add_params (params_of ps) no_params ≡ ps
add_params-params_of ps h =
    add_params-append (list_caps ps.mp_ext_caps) (list_four ps.four_octet_as_cap) no_params
    ∙ rw (add_params-list_caps ps.mp_ext_caps h)
        (add_params-list_four ps.four_octet_as_cap ps.mp_ext_caps)

-- The four bytes before the parameters: their number, in the format that the second byte names.
abbrev pub count_bytes : Bool → ℕ → List ℕ
count_bytes ext n = if ext then 0 ∷ 255 ∷ u16_bytes n else n ∷ 0 ∷ 0 ∷ 0 ∷ []

-- An OPEN as the decoder reads it, not as it is documented: each number stands in network order, and
-- the padding that is skipped is zeros.
abbrev pub open_bytes : OpenMsg → List ℕ
open_bytes m =
    m.version
    ∷ (0 ∷ 0 ∷ 0 ∷ u16_bytes m.as_number
        ++ (0 ∷ 0 ∷ u16_bytes m.hold_time
            ++ (0 ∷ 0 ∷ u32_bytes m.bgp_identifier
                ++ (count_bytes m.ext_opt_param m.opt_params_len
                    ++ layout_all (param_bytes m.ext_opt_param) (params_of m.opt_params)))))

pub hold-test : (h : ℕ) → (h ≡ 0) ⊎ (3 ≤ h) → not (not (h == 0) && ltb h 3) ≡ true
hold-test h q = ground arith

pub ident-test : (i : ℕ) → i ≢ 0 → i ≢ 2 ^ 32 - 1 → not (i == 0 || i == 2 ^ 32 - 1) ≡ true
ident-test i p q = ground arith
