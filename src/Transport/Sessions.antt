-- ===== src/Transport/Sessions.antt =====
-- The session of lib/ask_herdr_herdr_transport.py: the named one, its binding, and the binding of a start.
use ask_herdr.Base.{
  ℕ, String, Bool, true, false, not, ◌&&◌, ◌||◌, Option, none, some, List, [], ◌∷◌, any, codes,
  in_range, length, leb, ◌==◌, string_eq, nat_eq, if◌then◌else◌,
}
use ask_herdr.StrictJson.Values.{Json, null, boolean, text, Fields, value_of, same_json}
use ask_herdr.ProjectStatus.Select.{keep}
use ask_herdr.Transport.Proofs.{
  CommandReceipt, SessionBinding, namespace_unowned, topology_ownership_mismatch, session_namespace,
}
use ask_herdr.Transport.Actions.{Outcome, done, ◌>?>◌, refused, require_not}
use ask_herdr.Transport.Commands.{is_null}

abbrev pub is_alphanumeric : ℕ → Bool
is_alphanumeric c = in_range b'A' b'Z' c || (in_range b'a' b'z' c || in_range b'0' b'9' c)

-- `[A-Za-z0-9._-]`
abbrev pub is_key_text_char : ℕ → Bool
is_key_text_char c = is_alphanumeric c || (c == b'.' || (c == b'_' || c == b'-'))

-- `[A-Za-z0-9._:-]`
abbrev pub is_identifier_char : ℕ → Bool
is_identifier_char c = is_key_text_char c || c == b':'

-- A letter or digit, and up to so many characters of a class.
abbrev pub starts_alphanumeric : (ℕ → Bool) → ℕ → List ℕ → Bool
starts_alphanumeric class most [] = false
starts_alphanumeric class most (c ∷ cs) =
    is_alphanumeric c && (leb (length cs) most && not (any (λ d. not (class d)) cs))

-- `_IDENTIFIER.fullmatch` and `_CONSULTANT_KEY.fullmatch`
unfoldable pub is_identifier : String → Bool
is_identifier s = starts_alphanumeric is_identifier_char 127 (codes s)

unfoldable pub is_intent_key : String → Bool
is_intent_key s = starts_alphanumeric is_key_text_char 63 (codes s)

abbrev pub is_text : String → Json → Bool
is_text s (text t) = s == t
is_text s _ = false

-- `value is True` and `value is False`
abbrev pub is_truth : Bool → Json → Bool
is_truth true (boolean b) = b
is_truth false (boolean b) = not b
is_truth _ _ = false

-- A text that is not empty.
abbrev pub filled_text : Json → Option String
filled_text (text t) = if t == "" then none else some t
filled_text _ = none

-- `_named_session`
unfoldable pub named_session : List Fields → Outcome (Option Fields)
named_session sessions = elim (keep (λ f. is_text session_namespace (value_of "name" f)) sessions) [
  | [] ↦ done none
  | (f ∷ fs) ↦ elim fs [ [] ↦ done (some f) | _ ↦ refused namespace_unowned ]
]

-- The generation of a session: its own, or the digest of the receipt that started it.
unfoldable pub generation_of : Fields → Option CommandReceipt → Outcome String
generation_of session receipt = elim (value_of "generation_id" session) [
  | null ↦ elim receipt [
    | none ↦ refused topology_ownership_mismatch
    | some r ↦ done r.receipt_digest
  ]
  | text id ↦ if is_identifier id then done id else refused namespace_unowned
  | _ ↦ refused namespace_unowned
]

-- `_session_binding`
unfoldable pub session_binding : Fields → Option CommandReceipt → Outcome SessionBinding
session_binding session receipt =
    require_not
      (not (is_text session_namespace (value_of "name" session))
        || not (is_truth false (value_of "default" session)))
      namespace_unowned
    >?> λ _. elim (filled_text (value_of "session_dir" session)) [
      | none ↦ refused namespace_unowned
      | some dir ↦ elim (filled_text (value_of "socket_path" session)) [
        | none ↦ refused namespace_unowned
        | some socket ↦ generation_of session receipt >?> λ generation. done (record {
          name = session_namespace;
          default = false;
          session_dir = dir;
          socket_path = socket;
          generation_id = generation;
        })
      ]
    ]

abbrev pub field_differs : Fields → Fields → String → Bool
field_differs f g name = not (same_json (value_of name f) (value_of name g))

abbrev pub identity_fields : List String
identity_fields = "name" ∷ "default" ∷ "running" ∷ "session_dir" ∷ "socket_path" ∷ []

-- `_started_session_binding`, of the session that the receipt names and the live one.
unfoldable pub started_session_binding : CommandReceipt → Fields → Fields → Outcome SessionBinding
started_session_binding start receipt_session live =
    require_not
      (not (is_truth true (value_of "running" receipt_session))
        || (not (is_truth true (value_of "running" live))
            || any (field_differs receipt_session live) identity_fields))
      topology_ownership_mismatch
    >?> λ _.
        require_not
          (not (is_null (value_of "generation_id" receipt_session))
              && is_null (value_of "generation_id" live)
            || (is_null (value_of "generation_id" receipt_session)
                  && not (is_null (value_of "generation_id" live))
                || (not (is_null (value_of "generation_id" receipt_session))
                    && field_differs receipt_session live "generation_id")))
          topology_ownership_mismatch
        >?> λ _. session_binding receipt_session (some start)
