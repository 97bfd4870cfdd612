-- ===== src/Auth/Tests.antt =====
-- Requests with a session and with keys, for one vault and one network.
use stellar_yield_contracts.Base.{
  ℕ, ◌≡◌, refl, ◌↔◌, true, Option, none, some, List, [], ◌∷◌, ok, replicate,
}
use stellar_yield_contracts.Base.Int.{ℤ, pos}
use stellar_yield_contracts.Amounts.Text.{codes, trim, span_digits}
use stellar_yield_contracts.Auth.Text.{eq_text, split_on, parse_int}
use stellar_yield_contracts.Auth.Cidr.{range_text, prefix_bits, parse_ipv4, ip_matches_cidr}
use stellar_yield_contracts.Auth.Cidr.Range.{InBlock, ip_matches_cidr-InBlock}
use stellar_yield_contracts.Auth.Keys.{
  readonly, ApiKey, is_contract_allowed, AuthState, lookup_api_key_by_plaintext,
}
use stellar_yield_contracts.Auth.Guard.{
  min_readonly, header, Request, Options, Verified, not_a_token, check_session, require_api_key,
  optional_api_key, enforce_api_key_contract_scope,
}
use stellar_yield_contracts.Auth.Guard.Checks.{IsAuthorized}
use stellar_yield_contracts.Auth.Guard.Origin.{HasOrigin, require_api_key-IsAuthorized}
use stellar_yield_contracts.Auth.Guard.Safety.{optional_api_key-IsAuthorized}

-- Two stand-ins for the library: `Number` by `parseInt`, and a hash that puts a letter in front.
abbrev number : List ℕ → Option ℤ
number s = parse_int s

abbrev hash : List ℕ → List ℕ
hash s = b'h' ∷ s

abbrev verify_none : List ℕ → Verified
verify_none token = not_a_token

abbrev reader : ApiKey
reader = record {
  id = pos 3;
  role = readonly;
  expires_at = some 1000;
  active = true;
  allowed_methods = none;
  allowed_cidrs = some (codes "10.1.0.0/16" ∷ []);
  allowed_contract_ids = some (70 ∷ []);
}

abbrev table : AuthState
table = record {
  api_keys = record { key = reader; key_salt = none; key_hash = hash (codes "secret") } ∷ [];
  database_up = true;
  redis = some (record { auth_fail = 0; revoked = [] });
}

abbrev read_vault : Request
read_vault = record {
  forwarded = header (codes "10.1.2.3, 10.0.0.1");
  remote_address = none;
  method = codes "GET";
  bearer = some (codes "secret");
  contract_id = some 70;
}

abbrev readers : Options
readers = record { role = none; min_role = some min_readonly }

reader_passes : (require_api_key number hash verify_none 5 readers read_vault table).0 ≡ ok reader
unfolding require_api_key lookup_api_key_by_plaintext eq_text split_on parse_int ip_matches_cidr
    trim span_digits
reader_passes = refl

ip_matches_cidr-InBlock_example :
    let parts = split_on b'/' (codes "10.1.0.0/16") in
    (ip_matches_cidr number (codes "10.1.2.3") (codes "10.1.0.0/16") ≡ true)
    ↔ InBlock
        (parse_ipv4 number (codes "10.1.2.3"))
        (parse_ipv4 number (range_text parts))
        (prefix_bits parts)
ip_matches_cidr-InBlock_example =
    ip_matches_cidr-InBlock number (codes "10.1.2.3") (codes "10.1.0.0/16")

require_api_key-IsAuthorized_example :
    IsAuthorized number 5 readers read_vault reader
    × (token : List ℕ) × (some (codes "secret") ≡ some token)
    × HasOrigin number hash verify_none read_vault table.api_keys token reader
require_api_key-IsAuthorized_example =
    require_api_key-IsAuthorized number hash verify_none 5 readers read_vault table reader
      reader_passes

session_passes :
    check_session number 5 readers read_vault (record reader { allowed_contract_ids = none }) table
    ≡ some (ok reader)
unfolding check_session eq_text split_on parse_int ip_matches_cidr trim span_digits
session_passes = refl

secret_found : (lookup_api_key_by_plaintext hash (codes "secret") table).0 ≡ some reader
unfolding lookup_api_key_by_plaintext eq_text
secret_found = refl

abbrev twenty : List (ℕ × Options × Request)
twenty = replicate 20 (5, readers, read_vault)

reader_goes_on :
    (optional_api_key number hash verify_none 5 read_vault none table).0 ≡ ok (some reader)
unfolding optional_api_key require_api_key lookup_api_key_by_plaintext eq_text split_on parse_int
    ip_matches_cidr trim span_digits
reader_goes_on = refl

vault_in_scope : enforce_api_key_contract_scope (some reader) 70 ≡ ok tt
unfolding enforce_api_key_contract_scope
vault_in_scope = refl

optional_api_key-IsAuthorized_example :
    (k : ApiKey) × (some reader ≡ some k)
    × IsAuthorized number 5 readers read_vault k
    × (is_contract_allowed k.allowed_contract_ids 70 ≡ true)
optional_api_key-IsAuthorized_example =
    optional_api_key-IsAuthorized number hash verify_none 5 70 read_vault (codes "secret") table
      (some reader) refl reader_goes_on vault_in_scope
