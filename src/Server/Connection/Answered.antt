-- ===== src/Server/Connection/Answered.antt =====
-- daemon/src/server.rs: a client gets an answer to each of its lines, in their order.
use omafile.Prelude.{
  ℕ, Bytes, List, [], ◌∷◌, ◌++◌, Bool, true, false, none, some, Result, ok, err, ◌≡◌, refl, sym, ap,
  ◌∙◌,
}
use mathlib.Core.List.{append_assoc, append-nil}
use omafile.Prelude.Action.Post.{Post, bind-Post, pure-Post, raise-Post, discard-Post}
use omafile.Error.{IoError}
use omafile.Server.Protocol.{Request, request_id}
use omafile.Server.Session.{Session, Env, tell}
use omafile.Server.Dispatch.Answers.{dispatch-Answered}
use omafile.Server.Dispatch.Answers.Events.{event_id, answers}
use omafile.Server.Dispatch.Answers.Steps.{Answered, tell-Answered}
use omafile.Server.Connection.{unparseable, on_request, on_line, handle_requests}

module _ (is_blank : Bytes → Bool) (from_str : Bytes → Result Bytes Request) where
  -- The number that a parsed line is answered under.
  abbrev number_of : Result Bytes Request → ℕ
  number_of (ok req) = request_id req
  number_of (err e) = 0

  abbrev number_if : Bool → Bytes → List ℕ
  number_if true line = []
  number_if false line = number_of (from_str line) ∷ []

  -- The numbers of the lines that ask something, up to the first that cannot be read.
  unfoldable pub asked : List (Result IoError Bytes) → List ℕ
  asked [] = []
  asked (err e ∷ rest) = []
  asked (ok line ∷ rest) = number_if (is_blank line) line ++ asked rest

  -- How the loop ends.
  unfoldable pub ending : List (Result IoError Bytes) → Result IoError (Unit {0})
  ending [] = ok tt
  ending (err e ∷ rest) = err e
  ending (ok line ∷ rest) = ending rest

  module _ (env : Env) (willing : (n : ℕ) → env.accepts n ≡ none) where
    event_id-refusal :
        (seq : ℕ) (e : Bytes) → event_id (unparseable env is_blank from_str e seq) ≡ some 0
    unfolding event_id
    event_id-refusal seq e = refl

    told :
        (s : Session) (r : Result IoError (Unit {0})) (t : Session)
        → Answered (0 ∷ []) s r t
        → answers t.sent ≡ answers s.sent ++ (0 ∷ [])
    told s (ok _) t h = h
    told s (err e) t bad = elim bad [ ]

    on_request-Answered :
        (r : Result Bytes Request) (s : Session)
        → Post (Answered (number_of r ∷ []) s) (on_request env is_blank from_str r) s
    on_request-Answered (ok req) s = dispatch-Answered env willing req s
    on_request-Answered (err e) s =
        discard-Post (Answered (0 ∷ []) s) (tell env (unparseable env is_blank from_str e)) s (
          told s (tell env (unparseable env is_blank from_str e) s).0
            (tell env (unparseable env is_blank from_str e) s).1
            (tell-Answered env willing (unparseable env is_blank from_str e) 0 s
              (λ seq. event_id-refusal seq e)))

    on_line-Answered :
        (blank : Bool) (line : Bytes) (s : Session)
        → Post (Answered (number_if blank line) s) (on_line env is_blank from_str blank line) s
    on_line-Answered true line s =
        pure-Post (Answered [] s) tt s (sym (append-nil (answers s.sent)))
    on_line-Answered false line s = on_request-Answered (from_str line) s

    abbrev pub Ended :
        List (Result IoError Bytes) → Session → Result IoError (Unit {0}) → Session → Type 0
    Ended lines s r t = (r ≡ ending lines) × (answers t.sent ≡ answers s.sent ++ asked lines)

    -- To a client that takes its events, every line that is not blank is answered once, in order:
    -- under the request's own number, or under 0 if it is no request. The loop ends only as the reader does.
    pub handle_requests-Answered :
        (lines : List (Result IoError Bytes)) (s : Session)
        → Post (Ended lines s) (handle_requests env is_blank from_str lines) s
    unfolding handle_requests asked ending
    handle_requests-Answered [] s =
        pure-Post (Ended [] s) tt s (refl, sym (append-nil (answers s.sent)))
    handle_requests-Answered (err e ∷ rest) s =
        raise-Post (Ended (err e ∷ rest) s) e s (refl, sym (append-nil (answers s.sent)))
    handle_requests-Answered (ok line ∷ rest) s =
        bind-Post (Answered (number_if (is_blank line) line) s) (Ended (ok line ∷ rest) s) _ _ s
          (on_line-Answered (is_blank line) line s)
          (λ _ t h.
            let (ended, more) = handle_requests-Answered rest t in
            (
              ended,
              more
                  ∙ ap (λ x. x ++ asked rest) h
                  ∙ append_assoc (answers s.sent) (number_if (is_blank line) line) (asked rest),
            ))
          (λ _ _ bad. elim bad [ ])
