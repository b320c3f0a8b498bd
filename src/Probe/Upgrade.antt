-- ===== src/Probe/Upgrade.antt =====
-- internal/checks/upgrade.go: the probe for an answer "101 Switching Protocols" to a plain upgrade request.
pub mod Laws
use pingachock.Base.{
  equal_codes, some, length, equal_fold, ◌==◌, ltb, none, false, ◌++◌, if◌then◌else◌, ◌∷◌, Bool, [],
  codes, cut, ℕ, List, Bytes, Option,
}
use pingachock.Probe.Address.{NetError}

-- A connection as it is read: what the reads give one after the other, and the error that ends them, with
-- what is read along with it. The deadline of the connection ends every stream.
pub record Stream : Type 0 where
  pub chunks : List Bytes
  pub final : Bytes
  pub error : NetError

pub data UpgradeAnswer : Type 0 where
  body : Bytes → UpgradeAnswer
  nothing : NetError → UpgradeAnswer

abbrev pub at_end : Bytes → NetError → UpgradeAnswer
at_end [] e = nothing e
at_end (c ∷ b) e = body (c ∷ b)

abbrev pub max_body : ℕ
max_body = 16384

-- The loop of `readUpgradeResponse`, on what is read so far.
unfoldable pub read_chunks : ℕ → List Bytes → Bytes → NetError → Bytes → UpgradeAnswer
read_chunks limit [] final e buf =
    if ltb (length buf) limit then at_end (buf ++ final) e else body buf
read_chunks limit (c ∷ cs) final e buf =
    let rest = read_chunks limit cs final e (buf ++ c) in
    if ltb (length buf) limit then rest else body buf

unfoldable pub read_upgrade_response : Stream → ℕ → UpgradeAnswer
unfolding read_chunks
read_upgrade_response s limit = read_chunks limit s.chunks s.final s.error []

-- The line before the first line break.
abbrev pub first_line : Bytes → Bytes
first_line b = elim (cut (codes "\n") b) [ none ↦ b | some (line, _) ↦ line ]

-- `bytes.TrimRight` of carriage returns
abbrev pub keep_unless_cr : ℕ → Bytes → Bytes
keep_unless_cr c [] = if c == 13 then [] else c ∷ []
keep_unless_cr c (x ∷ xs) = c ∷ x ∷ xs

unfoldable pub trim_cr : Bytes → Bytes
trim_cr [] = []
trim_cr (c ∷ s) = keep_unless_cr c (trim_cr s)

-- The second of the parts of `bytes.SplitN` at spaces, where there is one.
unfoldable pub second_part : Bytes → Option Bytes
unfolding cut
second_part line = elim (cut (codes " ") line) [
  | none ↦ none
  | some (_, rest) ↦ elim (cut (codes " ") rest) [ none ↦ some rest | some (part, _) ↦ some part ]
]

abbrev pub is_101 : Option Bytes → Bool
is_101 none = false
is_101 (some p) = equal_codes p (codes "101")

-- `matchSwitchingProtocols`
unfoldable pub match_switching_protocols : Bytes → Bool
unfolding second_part trim_cr cut
match_switching_protocols b = is_101 (second_part (trim_cr (first_line b)))

-- `buildUpgradeRequest`; `key` is the encoded random key.
abbrev pub line_end : Bytes
line_end = codes "\r\n"

abbrev pub user_agent : Bytes
user_agent =
    codes
      "Mozilla/5.0 (Macintosh; Intel Mac OS X 10_15_7) AppleWebKit/537.36 (KHTML, like Gecko) Chrome/120.0.6089.3 Safari/537.36"

abbrev pub websocket_headers : Bytes → Bytes → Bytes
websocket_headers protocol key =
    if equal_fold protocol (codes "websocket")
    then (codes "Sec-WebSocket-Version: 13"
        ++ (line_end ++ (codes "Sec-WebSocket-Key: " ++ (key ++ line_end))))
    else []

unfoldable pub build_upgrade_request : Bytes → Bytes → Bytes → Bytes
build_upgrade_request key host protocol =
    codes "GET / HTTP/1.1"
    ++ (line_end
        ++ (codes "Host: "
            ++ (host
                ++ (line_end
                    ++ (codes "User-Agent: "
                        ++ (user_agent
                            ++ (line_end
                                ++ (codes "Connection: Upgrade"
                                    ++ (line_end
                                        ++ (codes "Upgrade: "
                                            ++ (protocol
                                                ++ (line_end
                                                    ++ (websocket_headers protocol key
                                                        ++ line_end)))))))))))))
