-- ===== src/Errors/Status/Classes.antt =====
-- What a status becomes, against the causes of each error (rust/src/common/error.rs).
use typedb_driver.Common.{
  ◌≡◌, refl, sym, ◌⊎◌, inl, inr, Bool, true, ◌||◌, Option, none, some, List, [], ◌∷◌, ◌++◌, Bytes,
  codes, ◌=?◌, nat_eq, bytes_eq, arith,
}
use typedb_driver.Errors.{ConnectionError, Error, server}
use typedb_driver.Errors.Status.{
  has_text, is_rst_stream, is_reading_body_from_connection_error, is_tcp_connect_error,
  is_connection_error, ErrorInfo, ErrorDetails, Code, unavailable, unknown, failed_precondition,
  already_exists, unimplemented, other_code, Status, concat_source_messages, parse_unavailable,
  one_of, get_trace, try_extracting_connection_error_from_info,
  try_extracting_connection_error_message, or_else, reported, from_code, from_info, from_details,
  from_decoded, from_status,
}
use typedb_driver.Errors.Status.Causes.{
  full_text, invalid_token, uninitialised, IsInfo, IsBare, IsCause, IsUnlisted, IsReport,
}
use typedb_driver.Errors.Status.Phrases.{
  concat_source_messages-full_text, has_text-IsPhrase, one_of-IsOneOf, IsOneOf-append, branches,
  not_one_of,
}

module _ {A : Type 0} (parse_address : Bytes → Option A) where
  -- A connection error of a status, or what is said where there is none.
  abbrev IsFound : Status → Type 0 → Option (ConnectionError A) → Type 0
  IsFound s none_ none = none_
  IsFound s none_ (some x) = IsCause parse_address s x

  or_else-IsReport :
      (s : Status) (N : Type 0) (o : Option (ConnectionError A)) (z : Error A)
      → IsFound s N o
      → (N → IsReport parse_address s z)
      → IsReport parse_address s (or_else o z)
  or_else-IsReport s N none z found h = h found
  or_else-IsReport s N (some x) z found h = found

  phrase-cases : (b c d : Bool) → (b || c || d) ≡ true → (b ≡ true) ⊎ ((c ≡ true) ⊎ (d ≡ true))
  phrase-cases b c d h = ground arith

  message-IsFound :
      (s : Status) (text : Bytes)
      → text ≡ full_text s
      → IsFound s Unit (try_extracting_connection_error_message text)
  unfolding try_extracting_connection_error_message is_rst_stream is_tcp_connect_error
      is_connection_error is_reading_body_from_connection_error
  message-IsFound s text full =
      branches (IsFound s Unit)
        (is_rst_stream text || is_tcp_connect_error text || is_connection_error text) _ _
        (λ h. inr (
          full,
          elim (phrase-cases (is_rst_stream text) (is_tcp_connect_error text)
              (is_connection_error text) h) [
                | inl rst ↦ inl (has_text-IsPhrase (codes "Received Rst Stream") text rst)
                | inr (inl tcp) ↦ inr (inl (has_text-IsPhrase (codes "tcp connect error") text tcp))
                | inr (inr failed) ↦
                    inr (inr (has_text-IsPhrase (codes "connection error") text failed))
              ],
        ))
        λ _.
          branches (IsFound s Unit) (is_reading_body_from_connection_error text) _ _
            (λ h.
              rw full at (has_text-IsPhrase (codes "error reading a body from connection") text h))
            λ _. tt

  info-IsFound :
      (s : Status) (info : ErrorInfo)
      → IsInfo s info
      → IsFound s
          (IsUnlisted info.reason)
          (try_extracting_connection_error_from_info parse_address info)
  unfolding try_extracting_connection_error_from_info
  info-IsFound s info at =
      let P = IsFound s (IsUnlisted info.reason) in
      branches P (one_of invalid_token info.reason) _ _
        (λ h. (info, at, one_of-IsOneOf invalid_token info.reason h))
        λ h1.
          branches P (one_of uninitialised info.reason) _ _
            (λ h. (info, at, one_of-IsOneOf uninitialised info.reason h))
            λ h2.
              branches P (one_of (codes "CSV8" ∷ []) info.reason) _ _
                (λ h. (
                  info,
                  at,
                  inl (
                    elim (one_of-IsOneOf (codes "CSV8" ∷ []) info.reason h) [
                      | inl same ↦ sym same
                      | inr never ↦ absurd never
                    ],
                    refl,
                  ),
                ))
                λ h3.
                  branches P (one_of (codes "CSV9" ∷ []) info.reason) _ _
                    (λ h. (
                      info,
                      at,
                      inr (
                        elim (one_of-IsOneOf (codes "CSV9" ∷ []) info.reason h) [
                          | inl same ↦ sym same
                          | inr never ↦ absurd never
                        ],
                        refl,
                      ),
                    ))
                    λ h4. λ listed.
                      elim (IsOneOf-append invalid_token
                        (uninitialised ++ (codes "CSV8" ∷ codes "CSV9" ∷ [])) info.reason listed) [
                          | inl first ↦ not_one_of invalid_token info.reason h1 first
                          | inr others ↦
                              elim (IsOneOf-append uninitialised (codes "CSV8" ∷ codes "CSV9" ∷ [])
                                info.reason others) [
                                  | inl second ↦ not_one_of uninitialised info.reason h2 second
                                  | inr (inl third) ↦
                                      not_one_of (codes "CSV8" ∷ []) info.reason h3 (inl third)
                                  | inr (inr fourth) ↦
                                      not_one_of (codes "CSV9" ∷ []) info.reason h4 fourth
                                ]
                        ]

  unavailable-IsReport :
      (s : Status) → IsBare unavailable s → IsReport parse_address s (parse_unavailable s.message)
  unfolding parse_unavailable
  unavailable-IsReport s bare =
      let P = IsReport parse_address s in
      branches P (s.message =? codes "broken pipe") _ _
        (λ h. (bare, (bytes_eq.beq_iff s.message (codes "broken pipe")).0 h))
        λ _.
          branches P (has_text (codes "received corrupt message") s.message) _ _
            (λ h. (bare, has_text-IsPhrase (codes "received corrupt message") s.message h))
            λ _.
              branches P (has_text (codes "UnknownIssuer") s.message) _ _
                (λ h. (bare, has_text-IsPhrase (codes "UnknownIssuer") s.message h))
                λ _.
                  branches P (has_text (codes "Connection refused") s.message) _ _
                    (λ h. (bare, has_text-IsPhrase (codes "Connection refused") s.message h))
                    λ _. inl (refl, inl bare)

  full-IsReport :
      (s : Status) (z : Error A)
      → IsReport parse_address s z
      → IsReport parse_address s
          (or_else (try_extracting_connection_error_message (concat_source_messages s)) z)
  full-IsReport s z h =
      or_else-IsReport s Unit _ z
        (message-IsFound s (concat_source_messages s) (concat_source_messages-full_text s)) λ _. h

  code-IsReport :
      (c : Code) (s : Status) → IsBare c s → IsReport parse_address s (from_code {A = A} c s)
  unfolding from_code
  code-IsReport unavailable s bare = unavailable-IsReport s bare
  code-IsReport unknown s bare = inl (refl, inr (inl bare))
  code-IsReport failed_precondition s bare = inl (refl, inr (inr (inl bare)))
  code-IsReport already_exists s bare = inl (refl, inr (inr (inr bare)))
  code-IsReport unimplemented s bare = (bare, refl)
  code-IsReport other_code s bare = full-IsReport s _ (concat_source_messages-full_text s)

  trace-cases :
      (o : Option (List Bytes)) → ((o ≡ none) × (get_trace o ≡ [])) ⊎ (o ≡ some (get_trace o))
  trace-cases none = inl (refl, refl)
  trace-cases (some l) = inr refl

  info-IsReport :
      (o : Option ErrorInfo) (details : ErrorDetails) (s : Status)
      → s.details ≡ some details
      → details.error_info ≡ o
      → IsReport parse_address s (from_info parse_address o details s)
  info-IsReport none details s h h' = concat_source_messages-full_text s
  info-IsReport (some info) details s h h' =
      or_else-IsReport s (IsUnlisted info.reason)
        (try_extracting_connection_error_from_info parse_address info)
        (server (reported info details s)) (info-IsFound s info (details, h, h'))
        λ unlisted.
          (info, details, h, h', unlisted, refl, refl, refl, trace-cases details.stack_entries)

  details-IsReport :
      (o : Option Bytes) (details : ErrorDetails) (s : Status)
      → s.details ≡ some details
      → details.bad_request ≡ o
      → IsReport parse_address s (from_details parse_address o details s)
  details-IsReport (some bad_request) details s h h' = (details, h, h')
  details-IsReport none details s h h' =
      full-IsReport s _ (info-IsReport details.error_info details s h refl)

  decoded-IsReport :
      (o : Option ErrorDetails) (s : Status)
      → s.details ≡ o
      → IsReport parse_address s (from_decoded parse_address o s)
  decoded-IsReport none s h = code-IsReport s.code s (h, refl)
  decoded-IsReport (some details) s h = details-IsReport details.bad_request details s h refl

  -- A failed call becomes a connection error only for its cause: one of the reasons AUT1 to AUT3,
  -- of SRV14, RFT1 and CSV7, or CSV8 and CSV9, the last with the address of its redirect; a bad
  -- request; or, where the details do not decode, the status's code and a phrase of its message; or
  -- a phrase of the full text, which is the message and its sources, joined by a colon. It becomes
  -- a server error with the reason as its code, the domain, the message and the stack trace that
  -- the details have, only for a reason that is none of these; and every other error is the full
  -- text.
  pub from_status-IsReport : (s : Status) → IsReport parse_address s (from_status parse_address s)
  unfolding from_status
  from_status-IsReport s = decoded-IsReport s.details s refl
