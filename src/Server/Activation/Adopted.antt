-- ===== src/Server/Activation/Adopted.antt =====
-- daemon/src/server.rs: `activated_listener`, against what systemd's variables and the descriptor say.
use omafile.Prelude.{
  ℕ, zero, suc, Bytes, true, false, Option, none, some, Bool-cases, nat_eq, ==_iff, Result, ok, err,
  raise, pure, ◌≡◌, ◌≢◌, ◌⊎◌, inl, inr, refl, sym, ◌∙◌, ap, arith,
}
use omafile.Prelude.Action.Post.{Post, pure-Post, raise-Post}
use omafile.Prelude.Integers.{ℤ, pos, negsuc}
use omafile.Prelude.Parse.{parse_u32, parse_i32}
use omafile.Error.{IoError, invalid_input}
use omafile.Server.Activation.{
  Variables, Descriptor, is_number, is_listening_stream_socket, text_or_default, no_variables,
  usable, on_claim, activated_listener,
}

-- The descriptor accepts connections, and is a Unix socket of the stream type.
abbrev pub Listens : Descriptor → Type 0
Listens d = (d.accept_conn ≡ some 1) × ((d.domain ≡ some 1) × (d.socket_type ≡ some 1))

-- LISTEN_PID is this process.
abbrev pub Names : ℕ → Option Bytes → Type 0
Names pid none = ⊥
Names pid (some text) = parse_u32 text ≡ some pid

-- LISTEN_FDS is a number of sockets, and at least 1.
abbrev pub Counts : Option Bytes → Type 0
Counts none = ⊥
Counts (some text) = (k : ℕ) × (parse_i32 text ≡ some (pos (suc k)))

-- The variables are gone once LISTEN_PID has been read.
abbrev pub IsCleared : Variables → Variables → Type 0
IsCleared v u = ((v.listen_pid ≡ none) × (u ≡ v)) ⊎ ((v.listen_pid ≢ none) × (u ≡ no_variables))

is_number-some : (n : ℕ) (o : Option ℕ) → is_number n o ≡ true → o ≡ some n
is_number-some n none h = ground arith
is_number-some n (some m) h = ap some ((==_iff m n).0 h)

is_number_other : (n : ℕ) (o : Option ℕ) → is_number n o ≡ false → o ≢ some n
is_number_other n o h e = ground (arith, h, e)

listening-Listens : (d : Descriptor) → is_listening_stream_socket d ≡ true → Listens d
unfolding is_listening_stream_socket
listening-Listens d h = elim (Bool-cases (is_number 1 d.accept_conn)) [
  | inr e ↦ ground (arith, e, h)
  | inl e ↦ elim (Bool-cases (is_number 1 d.domain)) [
    | inr f ↦ ground (arith, e, f, h)
    | inl f ↦ (
      is_number-some 1 d.accept_conn e,
      (is_number-some 1 d.domain f, is_number-some 1 d.socket_type (ground (arith, e, f, h))),
    )
  ]
]

not_listening : (d : Descriptor) → is_listening_stream_socket d ≡ false → ¬ Listens d
unfolding is_listening_stream_socket
not_listening d h (a, (b, c)) = ground (arith, a, b, c, h)

counted :
    (n : ℕ) (fds : Option Bytes) → parse_i32 (text_or_default fds) ≡ some (pos (suc n)) → Counts fds
unfolding text_or_default parse_i32
counted n none c = ground (arith, c)
counted n (some text) c = (n, c)

uncounted :
    (fds : Option Bytes) (count : Option ℤ)
    → parse_i32 (text_or_default fds) ≡ count
    → ((k : ℕ) → count ≢ some (pos (suc k)))
    → ¬ Counts fds
unfolding text_or_default
uncounted none count c never bad = bad
uncounted (some text) count c never (k, e) = never k (sym c ∙ e)

module _ (pid : ℕ) (d : Descriptor) (v : Variables) where
  -- A socket is adopted only as descriptor 3, by the process that it is for, where one is counted and
  -- it listens; where it is for this process, there is that socket or an error.
  abbrev pub IsAdopted : Result IoError (Option ℕ) → Variables → Type 0
  IsAdopted (ok none) u = (¬ Names pid v.listen_pid) × IsCleared v u
  IsAdopted (ok (some fd)) u =
      (fd ≡ 3) × (Names pid v.listen_pid × (Counts v.listen_fds × (Listens d × (u ≡ no_variables))))
  IsAdopted (err e) u =
      (e ≡ invalid_input)
      × (Names pid v.listen_pid × ((¬ (Counts v.listen_fds × Listens d)) × (u ≡ no_variables)))

  module _ (mine : Names pid v.listen_pid) where
    refused :
        ¬ (Counts v.listen_fds × Listens d) → Post IsAdopted (raise invalid_input) no_variables
    refused lacks = raise-Post IsAdopted invalid_input no_variables (refl, (mine, (lacks, refl)))

    usable-IsAdopted :
        (count : Option ℤ)
        → parse_i32 (text_or_default v.listen_fds) ≡ count
        → Post IsAdopted (usable pid d count) no_variables
    usable-IsAdopted none c =
        refused (λ (some_fds, _). uncounted v.listen_fds none c (λ k e. ground (arith, e)) some_fds)
    usable-IsAdopted (some (negsuc n)) c = refused (λ (some_fds, _).
        uncounted v.listen_fds (some (negsuc n)) c (λ k e. ground (arith, e)) some_fds)
    usable-IsAdopted (some (pos zero)) c = refused (λ (some_fds, _).
        uncounted v.listen_fds (some (pos zero)) c (λ k e. ground (arith, e)) some_fds)
    usable-IsAdopted (some (pos (suc n))) c = elim (Bool-cases (is_listening_stream_socket d)) [
      | inl e ↦ rw e (
          pure-Post IsAdopted (some 3) no_variables
            (refl, (mine, (counted n v.listen_fds c, (listening-Listens d e, refl)))))
      | inr e ↦ rw e (refused (λ (_, listens). not_listening d e listens))
    ]

  other-IsAdopted :
      (u : Variables) → (¬ Names pid v.listen_pid) → IsCleared v u → Post IsAdopted (pure none) u
  other-IsAdopted u other cleared = pure-Post IsAdopted none u (other, cleared)

  on_claim-IsAdopted : (o : Option Bytes) → v.listen_pid ≡ o → Post IsAdopted (on_claim pid d o) v
  on_claim-IsAdopted none e = (rw e (λ bad. bad), inl (e, refl))
  on_claim-IsAdopted (some text) e = elim (Bool-cases (is_number pid (parse_u32 text))) [
    | inl own ↦ rw own (
        usable-IsAdopted (rw e (is_number-some pid (parse_u32 text) own))
          (parse_i32 (text_or_default v.listen_fds)) refl)
    | inr other ↦ rw other (
        other-IsAdopted no_variables (rw e (is_number_other pid (parse_u32 text) other))
          (inr (λ unset. ground (arith, e, unset), refl)))
  ]

  -- Whatever the variables say, a socket is adopted only as descriptor 3, by the process that
  -- LISTEN_PID names, where LISTEN_FDS is a number from 1 on and the descriptor is a Unix stream
  -- socket that accepts connections; there is none, with no error, only where LISTEN_PID does not
  -- name this process, and an error only where it does and LISTEN_FDS or the descriptor is not so.
  -- Where LISTEN_PID is set, all three variables are unset afterwards.
  pub activated_listener-IsAdopted : Post IsAdopted (activated_listener pid d) v
  unfolding activated_listener
  activated_listener-IsAdopted = on_claim-IsAdopted v.listen_pid refl
