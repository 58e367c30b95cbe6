-- ===== src/Bot/Storefront.antt =====
-- backend/src/app/bot_transport/storefront_config.py. `urllib.parse` and the environment are
-- parameters.
use Prim.Native.Char.{code}
use Prim.Native.String.{count}
use startprojectformillion.Base.{
  ℕ, String, Bool, true, false, not, ◌&&◌, ◌||◌, Option, none, some, List, [], ◌∷◌, ◌++◌, leb,
  nat_beq, if◌then◌else◌, no_text, every, strip, lower, starts_with, str_eq,
}

-- `SplitResult`
pub record SplitResult : Type 0 where
  pub scheme : String
  pub netloc : String
  pub path : String
  pub query : String
  pub fragment : String
  pub username : Option String
  pub password : Option String

-- What the storefront calls of `urllib.parse`; `none` is a `ValueError`.
pub record UrlLib : Type 0 where
  pub urlsplit : String → Option SplitResult
  -- with `keep_blank_values=True`
  pub parse_qsl : String → List (String × String)
  -- with `doseq=True, safe=":/-._~"`
  pub urlencode : List (String × String) → String
  -- of the scheme, the network location, the path and the query, with no fragment
  pub urlunsplit : String → String → String → String → String

pub record StorefrontPublicConfig : Type 0 where
  pub plan_name : Option String
  pub plan_price : Option String
  pub checkout_url : Option String
  pub renewal_url : Option String
  pub support_url : Option String
  pub support_handle : Option String

unfoldable pub norm_text : Option String → Option String
unfolding strip
norm_text none = none
norm_text (some v) = let t = strip v in if no_text t then none else some t

-- `needle in text`
unfoldable pub contains_text : String → String → Bool
contains_text needle String.[] = no_text needle
contains_text needle (String.◌∷◌ c s) =
    starts_with needle (String.◌∷◌ c s) || contains_text needle s

-- `any(needle in lowered for needle in needles)`
unfoldable pub any_needle : List String → String → Bool
unfolding contains_text
any_needle [] lowered = false
any_needle (needle ∷ needles) lowered = contains_text needle lowered || any_needle needles lowered

abbrev pub suspicious_needles : List String
suspicious_needles =
    "token" ∷ "secret" ∷ "password" ∷ "api_key" ∷ "key" ∷ "bearer" ∷ "signature" ∷ "dsn" ∷ []

unfoldable pub contains_suspicious_fragment : String → Bool
unfolding any_needle lower
contains_suspicious_fragment value = any_needle suspicious_needles (lower value)

-- `not text`, where a text may be absent
abbrev pub is_falsy : Option String → Bool
is_falsy none = true
is_falsy (some s) = no_text s

-- A parameter whose name or value is suspicious.
unfoldable pub suspicious_pair : List (String × String) → Bool
unfolding contains_suspicious_fragment
suspicious_pair [] = false
suspicious_pair ((key, val) ∷ pairs) =
    (contains_suspicious_fragment key || contains_suspicious_fragment val) || suspicious_pair pairs

-- A parameter whose name, in lower case, is `name`.
unfoldable pub has_key : String → List (String × String) → Bool
unfolding lower
has_key name [] = false
has_key name ((key, val) ∷ pairs) = str_eq (lower key) name || has_key name pairs

-- `any(_contains_suspicious_fragment(key) for key in existing_keys)`
unfoldable pub suspicious_key : List (String × String) → Bool
unfolding contains_suspicious_fragment lower
suspicious_key [] = false
suspicious_key ((key, val) ∷ pairs) =
    contains_suspicious_fragment (lower key) || suspicious_key pairs

-- `[A-Za-z0-9_]`
abbrev pub is_handle_char : ℕ → Bool
is_handle_char c =
    leb b'A' c && leb c b'Z'
    || (leb b'a' c && leb c b'z' || (leb b'0' c && leb c b'9' || nat_beq c b'_'))

-- `^@[A-Za-z0-9_]{3,64}$`, of a text that does not end in a line break
unfoldable pub is_handle : String → Bool
is_handle String.[] = false
is_handle (String.◌∷◌ c s) =
    nat_beq (code c) b'@' && (every is_handle_char s && (leb 3 (count s) && leb (count s) 64))

unfoldable pub validate_support_handle : Option String → Option String
unfolding norm_text is_handle
validate_support_handle raw = elim (norm_text raw) [
  | none ↦ none
  | some value ↦ if is_handle value then some value else none
]

module _ (lib : UrlLib) where
  -- What a URL must have once it is split.
  unfoldable pub split_is_public : SplitResult → Bool
  unfolding lower suspicious_pair
  split_is_public parts =
      str_eq (lower parts.scheme) "https"
      && (not (no_text parts.netloc)
          && (is_falsy parts.username
              && (is_falsy parts.password
                  && (no_text parts.fragment
                      && not (suspicious_pair (lib.parse_qsl parts.query))))))

  -- `_validate_public_https_url`
  unfoldable pub validate_public_https_url : Option String → Option String
  unfolding norm_text contains_suspicious_fragment split_is_public
  validate_public_https_url raw = elim (norm_text raw) [
    | none ↦ none
    | some value ↦ if contains_suspicious_fragment value then none else (elim (lib.urlsplit value) [
      | none ↦ none
      | some parts ↦ if split_is_public parts then some value else none
    ])
  ]

  -- The URL with the two parameters of the reference.
  unfoldable pub with_reference : SplitResult → String → String → Option String
  unfolding suspicious_key has_key
  with_reference parts reference_id reference_proof =
      let pairs = lib.parse_qsl parts.query in
      if suspicious_key pairs
      then none
      else if has_key "client_reference_id" pairs || has_key "client_reference_proof" pairs
      then none
      else some (
          lib.urlunsplit parts.scheme parts.netloc parts.path (
            lib.urlencode (
              pairs
              ++ (("client_reference_id", reference_id)
                  ∷ (("client_reference_proof", reference_proof) ∷ [])))))

  unfoldable pub build_checkout_url_with_reference : String → String → String → Option String
  unfolding validate_public_https_url with_reference
  build_checkout_url_with_reference base_url reference_id reference_proof =
      elim (validate_public_https_url (some base_url)) [
        | none ↦ none
        | some value ↦ elim (lib.urlsplit base_url) [
          | none ↦ none
          | some parts ↦ with_reference parts reference_id reference_proof
        ]
      ]

  unfoldable pub load_storefront_public_config : (String → Option String) → StorefrontPublicConfig
  unfolding norm_text validate_public_https_url validate_support_handle
  load_storefront_public_config read = record {
    plan_name = norm_text (read "TELEGRAM_STOREFRONT_PLAN_NAME");
    plan_price = norm_text (read "TELEGRAM_STOREFRONT_PLAN_PRICE");
    checkout_url = validate_public_https_url (read "TELEGRAM_STOREFRONT_CHECKOUT_URL");
    renewal_url = validate_public_https_url (read "TELEGRAM_STOREFRONT_RENEWAL_URL");
    support_url = validate_public_https_url (read "TELEGRAM_STOREFRONT_SUPPORT_URL");
    support_handle = validate_support_handle (read "TELEGRAM_STOREFRONT_SUPPORT_HANDLE");
  }

unfoldable pub load_checkout_reference_secret : (String → Option String) → Option String
unfolding norm_text
load_checkout_reference_secret read = norm_text (read "TELEGRAM_CHECKOUT_REFERENCE_SECRET")
