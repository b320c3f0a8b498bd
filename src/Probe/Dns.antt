-- ===== src/Probe/Dns.antt =====
-- internal/checks/dns.go: the records of a name. What a resolver finds is an argument.
use pingachock.Base.{
  length, ltb, none, some, false, ◌||◌, [], ◌∷◌, str_eq, is_empty_str, Option, if◌then◌else◌, map,
  join_str, String, ℕ, Bool, List,
}
use pingachock.Probe.Address.{Ip}
use pingachock.Base.Int.{or_default, ℤ}
use pingachock.Store.Models.{Json}
use pingachock.Probe.{CheckResult}

pub record DnsParams : Type 0 where
  pub record_type : String
  pub resolver : String
  pub timeout_ms : ℤ

-- The kinds of `lookup`; `none` is its refusal of another record type.
pub data RecordType : Type 0 where
  addresses cname mx txt ns : RecordType

unfoldable pub record_type_of : String → Option RecordType
record_type_of s =
    if str_eq s "A" || str_eq s "AAAA"
    then some addresses
    else if str_eq s "CNAME"
    then some cname
    else if str_eq s "MX"
    then some mx
    else if str_eq s "TXT"
    then some txt
    else if str_eq s "NS"
    then some ns
    else none

-- The resolver that is asked: that of the check, that of the interface, or the system's.
pub data Resolver : Type 0 where
  explicit : String → Resolver
  of_interface : Resolver
  of_system : Resolver

unfoldable pub resolver_for : Bool → String → Resolver
resolver_for has_own resolver =
    if is_empty_str resolver then if has_own then of_interface else of_system else explicit resolver

-- What a resolver finds: its error, or records of the kind that is asked for.
pub data Found : Type 0 where
  not_found : String → Found
  found_addresses : List Ip → Found
  found_name : String → Found
  found_mail : List (String × ℕ) → Found
  found_texts : List String → Found

-- What a lookup gives: its error, or its answers.
pub data Answers : Type 0 where
  lookup_failed : String → Answers
  answers : List String → Answers

abbrev pub mail_text : (ℕ → String) → String × ℕ → String
mail_text itoa (host, pref) = join_str (host ∷ " " ∷ itoa pref ∷ [])

abbrev pub ip_text : Ip → String
ip_text ip = ip.text

unfoldable pub answers_of : (ℕ → String) → Found → Answers
answers_of itoa (not_found msg) = lookup_failed msg
answers_of itoa (found_addresses ips) = answers (map ip_text ips)
answers_of itoa (found_name name) = answers (name ∷ [])
answers_of itoa (found_mail mail) = answers (map (mail_text itoa) mail)
answers_of itoa (found_texts texts) = answers texts

unfoldable pub dns_result : (List String → Json) → ℕ → Answers → CheckResult
dns_result raw ms (lookup_failed msg) = record {
  success = false;
  latency_ms = some ms;
  status_code = none;
  error_message = some msg;
  raw = "";
}
dns_result raw ms (answers found) = record {
  success = ltb 0 (length found);
  latency_ms = some ms;
  status_code = none;
  error_message = none;
  raw = raw found;
}

-- `lookup`, with the query of a resolver for a kind of record.
unfoldable pub lookup_kind :
    (ℕ → String) → (RecordType → Found) → String → Option RecordType → Answers
unfolding answers_of
lookup_kind itoa query name none =
    lookup_failed (join_str ("unsupported record_type: " ∷ name ∷ []))
lookup_kind itoa query name (some kind) = answers_of itoa (query kind)

-- `DNSChecker.Run`; `upper` is `strings.ToUpper`, `has_own` whether the interface has a resolver.
unfoldable pub run_dns :
    (List String → Json)
    → (ℕ → String)
    → (String → String)
    → (Resolver → RecordType → String → ℕ → Found)
    → Bool
    → ℕ
    → DnsParams
    → String
    → CheckResult
unfolding dns_result record_type_of resolver_for lookup_kind
run_dns raw itoa upper query has_own ms p target =
    let kind = upper (if is_empty_str p.record_type then "A" else p.record_type) in
    dns_result raw ms (
      lookup_kind itoa
        (λ k. query (resolver_for has_own p.resolver) k target (or_default p.timeout_ms 5000)) kind
        (record_type_of kind))
