-- ===== src/Relay/Http.antt =====
-- `Handler` of internal/relay/relay.go. The multiplexer of net/http is not part of the repository: it
-- is a record of operations, with the laws that net/http documents for paths of one plain segment.
use wsn.Prelude.{
  Result, ok, ◌==◌, if◌then◌else◌, bytes_eq, ℕ, ◌≡◌, Bool, true, false, ◌||◌, ◌&&◌, Option, none,
  some, [], ◌∷◌, ◌++◌,
}
use wsn.Protocol.{Bytes, codes}
use wsn.Text.{is_alphanumeric, all_bytes}
use wsn.Config.{RelayConfig}

-- The two functions that `Handler` registers.
pub data Endpoint : Type 0 where
  health web_socket : Endpoint

-- `handle_func` returns `none` where `HandleFunc` panics; `find` is the function that a request for
-- a path reaches.
pub record ServeMux : Type 1 where
  pub Mux : Type 0
  pub new : Mux
  pub handle_func : Bytes → Endpoint → Mux → Option Mux
  pub find : Mux → Bytes → Option Endpoint

is_segment : Bytes → Bool
is_segment [] = false
is_segment (c ∷ s) = all_bytes (λ b. is_alphanumeric b || (b == b'-') || (b == b'_')) (c ∷ s)

-- A slash and then letters, digits, `-` and `_`: no wildcard, host or method, and no subtree.
unfoldable pub is_plain : Bytes → Bool
unfolding is_segment
is_plain [] = false
is_plain (c ∷ s) = (c == b'/') && is_segment s

-- The new path leads to its function, and every other path where it led before.
pub record IsRegistered (m : ServeMux) (path : Bytes) (e : Endpoint) (mux mux' : m.Mux)
    : Type 0 where
  pub registered : m.handle_func path e mux ≡ some mux'
  pub finds :
      (other : Bytes)
      → m.find mux' other ≡ (if bytes_eq other path then some e else m.find mux other)

pub record IsServeMux (m : ServeMux) : Type 0 where
  pub empty : (path : Bytes) → m.find m.new path ≡ none
  pub registers :
      (path : Bytes) (e : Endpoint) (mux : m.Mux)
      → is_plain path ≡ true
      → m.find mux path ≡ none
      → (mux' : m.Mux) × IsRegistered m path e mux mux'

pub record Response : Type 0 where
  pub status : ℕ
  pub content_type : Bytes
  pub body : Bytes

-- The function that answers for `HealthPath`.
unfoldable pub answer_health : Bytes → Response
answer_health method =
    if bytes_eq method (codes "GET")
    then record {
      status = 200;
      content_type = codes "text/plain; charset=utf-8";
      body = codes "ok" ++ 10 ∷ [];
    }
    else record { status = 405; content_type = []; body = [] }

-- The status that a GET gets: from the multiplexer's own answer, from the upgrade of the connection, or
-- from the health check.
abbrev pub get_status : {E : Type 0} → Result E ℕ → Option Endpoint → Result E ℕ
get_status upgrade none = ok 404
get_status upgrade (some web_socket) = upgrade
get_status upgrade (some health) = ok (answer_health (codes "GET")).status

module _ (m : ServeMux) where
  abbrev and_web_socket : RelayConfig → Option m.Mux → Option m.Mux
  and_web_socket cfg none = none
  and_web_socket cfg (some mux) = m.handle_func cfg.path web_socket mux

  -- `Handler`, `none` where it panics.
  unfoldable pub handler : RelayConfig → Option m.Mux
  handler cfg = and_web_socket cfg (m.handle_func cfg.health_path health m.new)
