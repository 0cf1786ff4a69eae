-- ===== src/Provision/Environment.antt =====
-- `network.env` and `gateway.env` of internal/provision/provision.go, as the scripts that the bundles
-- carry read them with the shell's `.`: lines `NAME='value'`, where the value is what stands between
-- the single quotes.
pub mod Lines
pub mod Planned
mod Examples
use wsn.Prelude.{
  ℕ, List, [], ◌∷◌, ◌++◌, Option, none, some, Bool, true, false, if◌then◌else◌, All, All-append,
  ◌==◌, ◌≡◌, refl, sym, ap, ◌∙◌, arith, nat_eq, append_assoc, append-nil, Bool-cases, inl, inr, not,
}
use wsn.Protocol.{Bytes, codes}
use wsn.Text.{all_bytes, all_bytes_iff}
use wsn.Provision.Names.Quotes.{IsPlain}
use wsn.Provision.Plan.{State, ProvisionedClient}
use wsn.Provision.Render.{network_environment, gateway_environment, setting, is_gateway, join}

abbrev pub Settings : Type 0
Settings = List (Bytes × Bytes)

-- Where the shell stands in a line: in the name, after its `=`, in the value or after its quote.
pub data Place : Type 0 where
  in_name : Bytes → Place
  at_value : Bytes → Place
  in_value : Bytes → Bytes → Place
  at_end : Bytes → Bytes → Place

abbrev pub with_setting : Bytes → Bytes → Option Settings → Option Settings
with_setting name value none = none
with_setting name value (some settings) = some ((name, value) ∷ settings)

-- A text that is not such lines is `none`: the shell would run a part of it.
unfoldable pub read_from : Place → Bytes → Option Settings
read_from (in_name []) [] = some []
read_from (in_name (c ∷ name)) [] = none
read_from (at_value name) [] = none
read_from (in_value name value) [] = none
read_from (at_end name value) [] = none
read_from (in_name name) (c ∷ s) =
    let more = read_from (in_name (name ++ c ∷ [])) s in
    let value = read_from (at_value name) s in if c == b'=' then value else more
read_from (at_value name) (c ∷ s) =
    let value = read_from (in_value name []) s in if c == 39 then value else none
read_from (in_value name value) (c ∷ s) =
    let more = read_from (in_value name (value ++ c ∷ [])) s in
    let end = read_from (at_end name value) s in if c == 39 then end else more
read_from (at_end name value) (c ∷ s) =
    let rest = read_from (in_name []) s in if c == 10 then with_setting name value rest else none

unfoldable pub read_settings : Bytes → Option Settings
unfolding read_from
read_settings s = read_from (in_name []) s

pub value-read :
    (name before value rest : Bytes)
    → IsPlain value
    → read_from (in_value name before) (value ++ 39 ∷ 10 ∷ rest)
      ≡ with_setting name (before ++ value) (read_settings rest)
unfolding read_settings read_from
value-read name before [] rest h =
    ap (λ v. with_setting name v (read_from (in_name []) rest)) (sym (append-nil before))
value-read name before (c ∷ value) rest (plain, h) = rw plain (
    value-read name (before ++ c ∷ []) value rest h
    ∙ ap (λ v. with_setting name v (read_settings rest)) (append_assoc before (c ∷ []) value))

abbrev pub is_name_char : ℕ → Bool
is_name_char c = not (c == b'=')

pub name-read :
    (before name rest : Bytes)
    → all_bytes is_name_char name ≡ true
    → read_from (in_name before) (name ++ b'=' ∷ rest) ≡ read_from (at_value (before ++ name)) rest
unfolding read_from
name-read before [] rest h = ap (λ n. read_from (at_value n) rest) (sym (append-nil before))
name-read before (c ∷ name) rest h =
    let plain : (c == b'=') ≡ false = ground arith in
    let others : all_bytes is_name_char name ≡ true = ground arith in
    rw plain (
      name-read (before ++ c ∷ []) name rest others
      ∙ ap (λ n. read_from (at_value n) rest) (append_assoc before (c ∷ []) name))
