-- ===== src/Errors/Status/Causes.antt =====
-- The causes of the errors that a status becomes (rust/src/common/error.rs).
use typedb_driver.Common.{
  ◌≡◌, ◌⊎◌, Option, none, some, List, [], ◌∷◌, ◌++◌, Bytes, codes, nat_eq, bytes_eq,
}
use typedb_driver.Common.Maps
use typedb_driver.Errors.{
  ConnectionError, rpc_method_unavailable, server_connection_failed_with_error, broken_pipe,
  encryption_settings_mismatch, ssl_certificate_not_validated, connection_refused_networking,
  server_connection_failed_networking, server_connection_is_closed_unexpectedly,
  cluster_server_not_primary, token_credential_invalid, server_is_not_initialised, Error,
  connection, server, other,
}
use typedb_driver.Errors.Status.{
  ErrorInfo, ErrorDetails, Code, unavailable, unknown, failed_precondition, already_exists,
  unimplemented, Status, parse_redirect,
}

-- A text that is one of `l`.
abbrev pub IsOneOf : List Bytes → Bytes → Type 0
IsOneOf [] s = ⊥
IsOneOf (x ∷ l) s = (x ≡ s) ⊎ IsOneOf l s

-- A text with the phrase `p` in it.
abbrev pub IsPhrase : Bytes → Bytes → Type 0
IsPhrase p s = (before : Bytes) × (after : Bytes) × (s ≡ before ++ (p ++ after))

-- Texts with `separator` between them.
abbrev pub join : Bytes → List Bytes → Bytes
join separator [] = []
join separator (x ∷ []) = x
join separator (x ∷ y ∷ l) = x ++ (separator ++ join separator (y ∷ l))

abbrev pub full_text : Status → Bytes
full_text s = join (codes ": ") (s.message ∷ s.sources)

abbrev pub invalid_token : List Bytes
invalid_token = codes "AUT1" ∷ codes "AUT2" ∷ codes "AUT3" ∷ []

abbrev pub uninitialised : List Bytes
uninitialised = codes "SRV14" ∷ codes "RFT1" ∷ codes "CSV7" ∷ []

-- The details of a status have `info`.
abbrev pub IsInfo : Status → ErrorInfo → Type 0
IsInfo s info =
    (details : ErrorDetails) × (s.details ≡ some details) × (details.error_info ≡ some info)

-- The details do not decode, and the code is `c`.
abbrev pub IsBare : Code → Status → Type 0
IsBare c s = (s.details ≡ none) × (s.code ≡ c)

-- A reason that stands for no connection error.
abbrev pub IsUnlisted : Bytes → Type 0
IsUnlisted reason =
    ¬ IsOneOf (invalid_token ++ (uninitialised ++ codes "CSV8" ∷ codes "CSV9" ∷ [])) reason

module _ {A : Type 0} (parse_address : Bytes → Option A) where
  -- The causes of the connection errors.
  abbrev pub IsCause : Status → ConnectionError A → Type 0
  IsCause s token_credential_invalid =
      (info : ErrorInfo) × IsInfo s info × IsOneOf invalid_token info.reason
  IsCause s server_is_not_initialised =
      (info : ErrorInfo) × IsInfo s info × IsOneOf uninitialised info.reason
  IsCause s (cluster_server_not_primary hint) =
      (info : ErrorInfo) × IsInfo s info
      × (((info.reason ≡ codes "CSV8") × (hint ≡ none))
          ⊎ ((info.reason ≡ codes "CSV9")
              × (hint
                  ≡ parse_redirect parse_address
                      (Maps.lookup (codes "redirect_address") info.metadata))))
  IsCause s (server_connection_failed_with_error m) =
      (details : ErrorDetails) × (s.details ≡ some details) × (details.bad_request ≡ some m)
  IsCause s (rpc_method_unavailable m) = IsBare unimplemented s × (m ≡ s.message)
  IsCause s broken_pipe = IsBare unavailable s × (s.message ≡ codes "broken pipe")
  IsCause s encryption_settings_mismatch =
      IsBare unavailable s × IsPhrase (codes "received corrupt message") s.message
  IsCause s ssl_certificate_not_validated =
      IsBare unavailable s × IsPhrase (codes "UnknownIssuer") s.message
  IsCause s connection_refused_networking =
      IsBare unavailable s × IsPhrase (codes "Connection refused") s.message
  IsCause s (server_connection_failed_networking m) =
      ((m ≡ s.message)
        × (IsBare unavailable s
            ⊎ (IsBare unknown s ⊎ (IsBare failed_precondition s ⊎ IsBare already_exists s))))
      ⊎ ((m ≡ full_text s)
          × (IsPhrase (codes "Received Rst Stream") m
              ⊎ (IsPhrase (codes "tcp connect error") m ⊎ IsPhrase (codes "connection error") m)))
  IsCause s server_connection_is_closed_unexpectedly =
      IsPhrase (codes "error reading a body from connection") (full_text s)
  IsCause s _ = ⊥

  abbrev pub IsReport : Status → Error A → Type 0
  IsReport s (connection x) = IsCause s x
  IsReport s (other text) = text ≡ full_text s
  IsReport s (server e) =
      (info : ErrorInfo) × (details : ErrorDetails) × (s.details ≡ some details)
      × (details.error_info ≡ some info)
      × IsUnlisted info.reason
      × (e.error_code ≡ info.reason)
      × (e.error_domain ≡ info.domain)
      × (e.message ≡ s.message)
      × (((details.stack_entries ≡ none) × (e.stack_trace ≡ []))
          ⊎ (details.stack_entries ≡ some e.stack_trace))
  IsReport s _ = ⊥
