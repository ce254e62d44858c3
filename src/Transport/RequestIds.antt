-- ===== src/Transport/RequestIds.antt =====
-- The request ids that `_command` of lib/ask_herdr_herdr_transport.py accepts.
use ask_herdr.Base.{
  String, Bool, true, false, not, ◌&&◌, ◌||◌, Option, none, some, is_some, List, ◌∷◌, any, ◌≡◌,
  refl, subst, ◌==◌, string_eq, arith,
}
use ask_herdr.StrictJson.Values.{
  Json, null, boolean, integer, text, array, object, Fields, get_field, value_of,
}
use ask_herdr.ProjectStatus.Find.{keys_repeat}
use ask_herdr.Transport.Proofs.{ReceiptKind, Argv, CommandResponse, CommandReceipt, invalid_receipt}
use ask_herdr.Transport.Actions.{
  Outcome, done, failed, require_not, ran, TransportState, World, Herdr, RunnerAnswer, raises,
  unsupported, responds,
}
use ask_herdr.Transport.Commands.{
  needs_request_id, request_id_in, request_id_of, object_or_absent, read_payload, receipt_of,
  remember, accept_payload, accept_answer, command,
}
use ask_herdr.Transport.Triples.{>?>-eq-done, if_failed, done_inj}

abbrev pub same_id : String → String → Bool
same_id a b = b == a

abbrev seen : World → List String
seen w = w.transport.seen_request_ids

-- A receipt's id is no empty text and none that was accepted before; only some kinds may lack one.
abbrev pub is_fresh : ReceiptKind → List String → Option String → Bool
is_fresh kind ids none = not (needs_request_id kind)
is_fresh kind ids (some id) = not (id == "") && not (any (λ s. s == id) ids)

request_id_in-is_fresh :
    (kind : ReceiptKind) (ids : List String) (value : Json) (found : Option String)
    → request_id_in kind ids value ≡ done found
    → is_fresh kind ids found ≡ true
request_id_in-is_fresh kind ids null found h =
    let (optional, same) = if_failed (needs_request_id kind) _ h in
    subst (λ f. is_fresh kind ids f ≡ true) (done_inj same) (rw optional refl)
request_id_in-is_fresh kind ids (text id) found h =
    let (new, same) = if_failed (id == "" || any (λ s. s == id) ids) _ h in
    subst (λ f. is_fresh kind ids f ≡ true) (done_inj same) (ground arith)
request_id_in-is_fresh kind ids (boolean b) found h = cc
request_id_in-is_fresh kind ids (integer n) found h = cc
request_id_in-is_fresh kind ids (array xs) found h = cc
request_id_in-is_fresh kind ids (object f) found h = cc

read_payload-is_fresh :
    (kind : ReceiptKind) (ids : List String) (json : Option Json) (found : Fields × Option String)
    → read_payload kind ids json ≡ done found
    → is_fresh kind ids found.1 ≡ true
unfolding read_payload
read_payload-is_fresh kind ids none found h = cc
read_payload-is_fresh kind ids (some null) found h = cc
read_payload-is_fresh kind ids (some (boolean b)) found h = cc
read_payload-is_fresh kind ids (some (integer n)) found h = cc
read_payload-is_fresh kind ids (some (text t)) found h = cc
read_payload-is_fresh kind ids (some (array xs)) found h = cc
read_payload-is_fresh kind ids (some (object payload)) found h =
    let (u, one, rest) =
      >?>-eq-done
        (require_not (is_some (get_field "result" payload) && is_some (get_field "error" payload))
          invalid_receipt)
        _ h in
    let (v, result, more) =
      >?>-eq-done
        (require_not (not (object_or_absent (get_field "result" payload))) invalid_receipt) _
        rest in
    let (w, error, last) =
      >?>-eq-done (require_not (not (object_or_absent (get_field "error" payload))) invalid_receipt)
        _ more in
    let (id, fresh, same) =
      >?>-eq-done (request_id_of kind ids payload) (λ id. done (payload, id)) last in
    subst (λ f. is_fresh kind ids f.1 ≡ true) (done_inj same)
      (request_id_in-is_fresh kind ids (value_of "id" payload) id fresh)

-- A fresh id keeps the accepted ones apart.
fresh_apart :
    (kind : ReceiptKind) (ids : List String) (id : String)
    → is_fresh kind ids (some id) ≡ true
    → keys_repeat same_id ids ≡ false
    → keys_repeat same_id (id ∷ ids) ≡ false
fresh_apart kind ids id h k = ground arith

remembered_apart :
    (kind : ReceiptKind) (t : TransportState) (receipt : CommandReceipt) (herdr : Herdr)
    → is_fresh kind t.seen_request_ids receipt.request_id ≡ true
    → keys_repeat same_id t.seen_request_ids ≡ false
    → keys_repeat same_id (remember herdr t receipt).seen_request_ids ≡ false
remembered_apart kind t receipt herdr fresh apart = remembered receipt.request_id fresh
  where
    remembered :
        (id : Option String)
        → is_fresh kind t.seen_request_ids id ≡ true
        → keys_repeat same_id
            (elim id [ none ↦ t.seen_request_ids | some i ↦ i ∷ t.seen_request_ids ])
          ≡ false
    remembered none fresh = apart
    remembered (some i) fresh = fresh_apart kind t.seen_request_ids i fresh apart

module _ (herdr : Herdr) (kind : ReceiptKind) (argv : Argv) where
  accepted_ids :
      (r : CommandResponse) (o : Outcome (Fields × Option String)) (w : World)
      → ((found : Fields × Option String) → o ≡ done found → is_fresh kind (seen w) found.1 ≡ true)
      → keys_repeat same_id (seen w) ≡ false
      → (keys_repeat same_id (seen (accept_payload herdr kind argv r o w).1) ≡ false)
        × ((receipt : CommandReceipt)
            → (accept_payload herdr kind argv r o w).0 ≡ done receipt
            → is_fresh kind (seen w) receipt.request_id ≡ true)
  accepted_ids r (failed e) w fresh apart = (apart, λ receipt h. cc)
  accepted_ids r (done (payload, id)) w fresh apart = (
    remembered_apart kind w.transport (receipt_of herdr kind argv r payload id) herdr
        (fresh (payload, id) refl) apart,
    λ receipt h.
        subst (λ x. is_fresh kind (seen w) x.request_id ≡ true) (done_inj h)
          (fresh (payload, id) refl),
  )

  answered_ids :
      (answer : RunnerAnswer) (w : World)
      → keys_repeat same_id (seen w) ≡ false
      → (keys_repeat same_id (seen (accept_answer herdr kind argv answer w).1) ≡ false)
        × ((receipt : CommandReceipt)
            → (accept_answer herdr kind argv answer w).0 ≡ done receipt
            → is_fresh kind (seen w) receipt.request_id ≡ true)
  unfolding accept_answer
  answered_ids raises w apart = (apart, λ receipt h. cc)
  answered_ids unsupported w apart = (apart, λ receipt h. cc)
  answered_ids (responds r) w apart =
      accepted_ids r _ w (read_payload-is_fresh kind (seen w) (herdr.loads r.stdout)) apart

  -- While the ids accepted so far differ from each other, they differ behind any command, whatever the runner
  -- answers, and a receipt that is accepted has an id that is not empty and was never accepted before, or has
  -- none and is of a kind that needs none.
  pub command_ids :
      (w : World)
      → keys_repeat same_id w.transport.seen_request_ids ≡ false
      → (keys_repeat same_id (command herdr kind argv w).1.transport.seen_request_ids ≡ false)
        × ((receipt : CommandReceipt)
            → (command herdr kind argv w).0 ≡ done receipt
            → is_fresh kind w.transport.seen_request_ids receipt.request_id ≡ true)
  unfolding command
  command_ids w apart =
      answered_ids (herdr.runner w.log argv) (record w { log = ran kind argv ∷ w.log }) apart
