-- ===== src/Bot/Normalized/Accepted.antt =====
-- What a parsed command carries.
use startprojectformillion.Base.{
  String, ◌||◌, Option, none, some, if◌then◌else◌, if-keeps, str_eq, ◌≡◌, ◌⊎◌, refl, inl, inr,
  arith, Option-cases,
}
use startprojectformillion.Shared.{Result, ok, IsOk, Result-cases}
use startprojectformillion.Shared.Correlation.{require_correlation_id}
use startprojectformillion.Shared.Validation.{
  ℤ, validate_telegram_user_id, validate_telegram_update_id,
}
use startprojectformillion.Handlers.Resend.{TelegramAccessResendSourceCommand}
use startprojectformillion.Bot.Normalized.{
  TransportIncomingEnvelope, NormalizationRejectReason, NormalizedSlice1Result, with_event_id,
  parse_reading, parse_command, normalize_command_token, parse_token, is_bootstrap_command,
  is_status_command, is_resend_command, bootstrap_of, resend_of, parse_slice1_transport,
}

-- The identifiers of a command are those of the envelope, and valid.
abbrev pub Valid : TransportIncomingEnvelope → ℤ → String → Type 0
Valid envelope user_id cid =
    (user_id ≡ envelope.telegram_user_id)
    × (cid ≡ envelope.correlation_id)
    × IsOk (validate_telegram_user_id user_id)
    × IsOk (require_correlation_id cid)

-- The event's identifier is that of the envelope, and valid.
abbrev pub ValidEvent : TransportIncomingEnvelope → ℤ → Type 0
ValidEvent envelope update_id =
    (envelope.telegram_update_id ≡ some update_id) × IsOk (validate_telegram_update_id update_id)

abbrev pub IsAccepted : TransportIncomingEnvelope → NormalizedSlice1Result → Type 0
IsAccepted e (NormalizedSlice1Result.normalized_bootstrap inp) =
    Valid e inp.telegram_user_id inp.correlation_id × ValidEvent e inp.telegram_update_id
IsAccepted e (NormalizedSlice1Result.normalized_status inp) =
    Valid e inp.telegram_user_id inp.correlation_id
IsAccepted e (NormalizedSlice1Result.normalized_resend_access inp) =
    Valid e inp.telegram_user_id inp.correlation_id × ValidEvent e inp.telegram_update_id
IsAccepted e (NormalizedSlice1Result.normalized_help cid) = Valid e e.telegram_user_id cid
IsAccepted e (NormalizedSlice1Result.normalized_plans cid) = Valid e e.telegram_user_id cid
IsAccepted e (NormalizedSlice1Result.normalized_buy cid) = Valid e e.telegram_user_id cid
IsAccepted e (NormalizedSlice1Result.normalized_success cid) = Valid e e.telegram_user_id cid
IsAccepted e (NormalizedSlice1Result.normalized_renew cid) = Valid e e.telegram_user_id cid
IsAccepted e (NormalizedSlice1Result.normalized_support_menu cid) = Valid e e.telegram_user_id cid
IsAccepted e (NormalizedSlice1Result.normalized_support_contact cid) =
    Valid e e.telegram_user_id cid
IsAccepted e (NormalizedSlice1Result.normalized_rejected reason) = Unit

ok-IsOk : {A : Type 0} {r : Result A} {a : A} → r ≡ ok a → IsOk r
ok-IsOk h = rw h tt

reading-IsAccepted :
    (e : TransportIncomingEnvelope) (token : String)
    → Valid e e.telegram_user_id e.correlation_id
    → IsAccepted e (parse_reading e.correlation_id token)
unfolding parse_reading
reading-IsAccepted e token v =
    let P = IsAccepted e in
    if-keeps P (str_eq token "/help" || str_eq token "/menu") v (
      if-keeps P (str_eq token "/plans") v (
        if-keeps P (str_eq token "/buy" || str_eq token "/checkout") v (
          if-keeps P (str_eq token "/success") v (
            if-keeps P (str_eq token "/renew") v (
              if-keeps P (str_eq token "/support") v
                (if-keeps P (str_eq token "/support_contact") v tt))))))

event-IsAccepted :
    (e : TransportIncomingEnvelope) (missing : NormalizationRejectReason)
    (next : ℤ → NormalizedSlice1Result)
    → ((update_id : ℤ) → ValidEvent e update_id → IsAccepted e (next update_id))
    → IsAccepted e (with_event_id e missing next)
unfolding with_event_id
event-IsAccepted e missing next accepted = elim (Option-cases e.telegram_update_id) [
  | inl absent ↦ ground (arith, absent)
  | inr (update_id, given) ↦ elim (Result-cases (validate_telegram_update_id update_id)) [
    | inl (raised, bad) ↦ ground (arith, given, bad)
    | inr (n, good) ↦
        let valid : IsOk (validate_telegram_update_id update_id) = ground (arith, good) in
        ground (arith, given, good, accepted update_id (given, valid))
  ]
]

command-IsAccepted :
    (e : TransportIncomingEnvelope) (token : String)
    → Valid e e.telegram_user_id e.correlation_id
    → IsAccepted e (parse_command e token)
unfolding parse_command
command-IsAccepted e token v =
    let P = IsAccepted e in
    if-keeps P (is_bootstrap_command token)
      (event-IsAccepted e NormalizationRejectReason.missing_event_id_for_bootstrap (bootstrap_of e)
        (λ u valid. (v, valid)))
      (if-keeps P (is_status_command token) v (
        if-keeps P (is_resend_command token)
          (event-IsAccepted e NormalizationRejectReason.missing_event_id_for_resend
            (resend_of e (
              if str_eq token "/resend_access"
              then TelegramAccessResendSourceCommand.resend_access
              else TelegramAccessResendSourceCommand.get_access))
            (λ u valid. (v, valid)))
          (reading-IsAccepted e token v)))

token-IsAccepted :
    (e : TransportIncomingEnvelope) (found : Option String)
    → Valid e e.telegram_user_id e.correlation_id
    → IsAccepted e (parse_token e found)
unfolding parse_token
token-IsAccepted e none v = tt
token-IsAccepted e (some token) v = command-IsAccepted e token v

parse-cases :
    (e : TransportIncomingEnvelope)
    → (parse_slice1_transport e
        ≡ NormalizedSlice1Result.normalized_rejected NormalizationRejectReason.invalid_input)
      ⊎ ((parse_slice1_transport e
            ≡ parse_token e (normalize_command_token e.normalized_command_text))
          × Valid e e.telegram_user_id e.correlation_id)
unfolding parse_slice1_transport
parse-cases e = elim (Result-cases (require_correlation_id e.correlation_id)) [
  | inl (raised, bad) ↦ inl (ground (arith, bad))
  | inr (cid, good) ↦ elim (Result-cases (validate_telegram_user_id e.telegram_user_id)) [
    | inl (raised, bad) ↦ inl (ground (arith, good, bad))
    | inr (uid, valid) ↦
        inr (ground (arith, good, valid), (refl, refl, ok-IsOk valid, ok-IsOk good))
  ]
]

-- A command that the parser lets through carries the envelope's user and correlation identifiers,
-- and both are valid; `/start` and the resend commands carry the envelope's update identifier too,
-- which is there and valid.
pub parse-IsAccepted : (e : TransportIncomingEnvelope) → IsAccepted e (parse_slice1_transport e)
parse-IsAccepted e = elim (parse-cases e) [
  | inl refused ↦ rw refused tt
  | inr (reached, valid) ↦
      rw reached (token-IsAccepted e (normalize_command_token e.normalized_command_text) valid)
]
