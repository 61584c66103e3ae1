-- ===== src/Gateway/ClientIp.antt =====
-- clientIP of services/gateway/httpx.go, with what it uses of Go's strings and net: texts are walked by
-- their characters, and all characters that the code looks for are ASCII or spaces of Unicode.
pub mod Join
use Prim.Native.Char.{Char, code}
use Prim.Native.String.{[] as no_text, ◌∷◌ as text_cons}
use wallet_ledger.Base.{
  ℕ, String, Bool, true, false, not, ◌&&◌, ◌||◌, Option, none, some, leb, ◌==◌, str_eq,
  if◌then◌else◌,
}

-- strings.IndexByte(s, c) >= 0
unfoldable pub has : ℕ → String → Bool
has c no_text = false
has c (text_cons d s) = code d == c || has c s

-- What stands before and after the first `c`.
unfoldable pub split_first : ℕ → String → Option (String × String)
split_first c no_text = none
split_first c (text_cons d s) =
    let rest = split_first c s in
    if code d == c
    then some (no_text, s)
    else elim rest [ none ↦ none | some (before, after) ↦ some (text_cons d before, after) ]

-- What stands before and after the last `c`.
unfoldable pub split_last : ℕ → String → Option (String × String)
split_last c no_text = none
split_last c (text_cons d s) = elim (split_last c s) [
  | none ↦ if code d == c then some (no_text, s) else none
  | some (before, after) ↦ some (text_cons d before, after)
]

-- No stray bracket and no second colon is left.
unfoldable pub clean : String → Bool
unfolding has
clean s = not (has b':' s) && (not (has b'[' s) && not (has b']' s))

-- What follows the bracket that closes the host.
unfoldable pub after_bracket : String → String → Option (String × String)
unfolding has clean
after_bracket host no_text = none
after_bracket host (text_cons c port) =
    if code c == b':' && (not (has b'[' host) && clean port) then some (host, port) else none

-- net.SplitHostPort
unfoldable pub split_host_port : String → Option (String × String)
unfolding split_first split_last clean after_bracket
split_host_port no_text = none
split_host_port (text_cons c s) =
    if code c == b'['
    then (elim (split_first b']' s) [ none ↦ none | some (host, rest) ↦ after_bracket host rest ])
    else (elim (split_last b':' (text_cons c s)) [
      | none ↦ none
      | some (host, port) ↦ if clean host && clean port then some (host, port) else none
    ])

-- unicode.IsSpace
unfoldable pub is_space : ℕ → Bool
is_space c =
    (leb 9 c && leb c 13)
    || c == 32
    || c == 133
    || c == 160
    || c == 5760
    || (leb 8192 c && leb c 8202)
    || c == 8232
    || c == 8233
    || c == 8239
    || c == 8287
    || c == 12288

unfoldable pub trim_left : String → String
unfolding is_space
trim_left no_text = no_text
trim_left (text_cons c s) =
    let rest = trim_left s in if is_space (code c) then rest else text_cons c s

unfoldable pub trim_right : String → String
unfolding is_space
trim_right no_text = no_text
trim_right (text_cons c s) =
    let rest = trim_right s in
    if is_space (code c) && str_eq rest "" then no_text else text_cons c rest

-- strings.Split(s, ",")[0]
unfoldable pub before_comma : String → String
unfolding split_first
before_comma s = elim (split_first b',' s) [ none ↦ s | some (before, after) ↦ before ]

unfoldable pub remote_host : String → String
unfolding split_host_port
remote_host remote_addr = elim (split_host_port remote_addr) [
  | none ↦ remote_addr
  | some (host, port) ↦ host
]

-- clientIP(trustProxy), of the X-Forwarded-For header and RemoteAddr
unfoldable pub client_ip : Bool → String → String → String
unfolding trim_left trim_right before_comma remote_host
client_ip trust_proxy forwarded_for remote_addr =
    if trust_proxy && not (str_eq forwarded_for "")
    then trim_right (trim_left (before_comma forwarded_for))
    else remote_host remote_addr
