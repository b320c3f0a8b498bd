-- ===== src/Probe/Vless.antt =====
-- internal/checks/vless.go: how a client's xray configuration is patched before it is run. The JSON codec is
-- a parameter (encoding/json); an object is its keys with their values.
pub mod Laws
pub mod Panics
use pingachock.Base.{
  take, false, length, last_of, ltb, Bool, is_empty, ◌++◌, equal_codes, String, some, codes,
  split_on, ◌∷◌, if◌then◌else◌, none, [], ℕ, trim_space, Bytes, Option, List,
}

-- `map[string]json.RawMessage` and `map[string]any`; a key stands once.
abbrev pub Object : Type 0
Object = List (Bytes × Bytes)

unfoldable pub lookup : Bytes → Object → Option Bytes
lookup k [] = none
lookup k ((j, v) ∷ o) = let rest = lookup k o in if equal_codes j k then some v else rest

-- `m[k] = v`
unfoldable pub put : Bytes → Bytes → Object → Object
put k v [] = (k, v) ∷ []
put k v ((j, w) ∷ o) = let rest = put k v o in if equal_codes j k then (k, v) ∷ o else (j, w) ∷ rest

-- A write to a map that is nil panics: JSON's null is decoded to that.
pub data Patched (A : Type 0) : Type 0 where
  patched : A → Patched A
  invalid : Patched A
  panics : Patched A

-- The map `inbound` of `patchInbound`, with the one key of its `settings`.
pub record Inbound : Type 0 where
  pub listen : Bytes
  pub port : ℕ
  pub protocol : Bytes
  pub udp : Bool

abbrev pub socks_inbound : ℕ → Inbound
socks_inbound port = record {
  listen = codes "127.0.0.1";
  port = port;
  protocol = codes "socks";
  udp = false;
}

pub record XrayCodec : Type 0 where
  -- `json.Unmarshal` into a map; `none` is its error, `some none` a nil map.
  pub object_of : Bytes → Option (Option Object)
  -- The same into a list of maps; a nil list is empty.
  pub entries_of : Bytes → Option (List (Option Object))
  pub write_object : Object → Bytes
  pub write_entries : List (Option Object) → Bytes
  -- `json.Marshal` of a list of inbounds and of a text.
  pub write_inbounds : List Inbound → Bytes
  pub text : Bytes → Bytes

abbrev pub is_text : XrayCodec → Option Bytes → String → Bool
is_text c none s = false
is_text c (some v) s = equal_codes v (c.text (codes s))

abbrev pub inbounds_key : Bytes
inbounds_key = codes "inbounds"

abbrev pub outbounds_key : Bytes
outbounds_key = codes "outbounds"

abbrev pub log_key : Bytes
log_key = codes "log"

abbrev pub quiet_log : Bytes
quiet_log = codes "{\"loglevel\":\"warning\"}"

abbrev pub or_nothing : Option Bytes → Bytes
or_nothing none = []
or_nothing (some v) = v

module _ (c : XrayCodec) where
  -- One round of the loop of `patchOutboundsSendThrough`.
  unfoldable pub bind_outbound : Bytes → Option Object → Patched (Option Object)
  unfolding lookup put
  bind_outbound address none = panics
  bind_outbound address (some o) =
      if is_text c (lookup (codes "protocol") o) "blackhole"
      then patched (some o)
      else patched (some (put (codes "sendThrough") (c.text address) o))

  abbrev pub and_then_bound :
      Patched (Option Object) → Patched (List (Option Object)) → Patched (List (Option Object))
  and_then_bound (patched e) (patched es) = patched (e ∷ es)
  and_then_bound (patched e) invalid = invalid
  and_then_bound (patched e) panics = panics
  and_then_bound invalid rest = invalid
  and_then_bound panics rest = panics

  unfoldable pub bind_outbounds : Bytes → List (Option Object) → Patched (List (Option Object))
  unfolding bind_outbound
  bind_outbounds address [] = patched []
  bind_outbounds address (e ∷ es) =
      and_then_bound (bind_outbound address e) (bind_outbounds address es)

  abbrev pub written : Patched (List (Option Object)) → Patched Bytes
  written (patched es) = patched (c.write_entries es)
  written invalid = invalid
  written panics = panics

  abbrev pub bind_entries : Bytes → Option (List (Option Object)) → Patched Bytes
  bind_entries address none = invalid
  bind_entries address (some es) = written (bind_outbounds address es)

  -- `patchOutboundsSendThrough`
  unfoldable pub patch_outbounds : Bytes → Bytes → Patched Bytes
  unfolding bind_outbounds
  patch_outbounds outbounds address =
      if is_empty outbounds
      then patched outbounds
      else bind_entries address (c.entries_of outbounds)

  abbrev pub put_outbounds : Object → Patched Bytes → Patched Object
  put_outbounds o (patched v) = patched (put outbounds_key v o)
  put_outbounds o invalid = invalid
  put_outbounds o panics = panics

  -- What `patchInbound` does with the decoded configuration; `address` is `sendThrough`.
  unfoldable pub patch_object : ℕ → Bytes → Object → Patched Object
  unfolding patch_outbounds put lookup
  patch_object port address o =
      let listening =
        put log_key quiet_log (put inbounds_key (c.write_inbounds (socks_inbound port ∷ [])) o) in
      if is_empty address
      then patched listening
      else put_outbounds listening
          (patch_outbounds (or_nothing (lookup outbounds_key listening)) address)

  abbrev pub write_patched : Patched Object → Patched Bytes
  write_patched (patched o) = patched (c.write_object o)
  write_patched invalid = invalid
  write_patched panics = panics

  abbrev pub patch_decoded : ℕ → Bytes → Option (Option Object) → Patched Bytes
  patch_decoded port address none = invalid
  patch_decoded port address (some none) = panics
  patch_decoded port address (some (some o)) = write_patched (patch_object port address o)

  -- `patchInbound`
  unfoldable pub patch_inbound : Bytes → ℕ → Bytes → Patched Bytes
  unfolding patch_object
  patch_inbound config port address = patch_decoded port address (c.object_of config)

-- `classifyXrayStartupError`
abbrev pub shortened : Bytes → Bytes
shortened s = if ltb 200 (length s) then take 200 s ++ codes "..." else s

abbrev pub last_line : List Bytes → Bytes
last_line [] = []
last_line (l ∷ ls) = trim_space (last_of l ls)

unfoldable pub startup_complaint : Bytes → Bytes
startup_complaint t =
    if is_empty t
    then codes "xray failed to start (no output)"
    else codes "xray config error: " ++ shortened (last_line (split_on b'\n' t))

unfoldable pub classify_xray_startup_error : Bytes → Bytes
unfolding startup_complaint trim_space split_on
classify_xray_startup_error output = startup_complaint (trim_space output)
