-- ===== src/Tests/Machine.antt =====
-- A machine on which nothing fails, one on which every write does, and a small tree of files.
use omafile.Prelude.{
  ℕ, zero, suc, ◌≤◌, ◌-◌, ◌^◌, Bytes, codes, List, [], ◌∷◌, true, false, Option, none, some, length,
  take, drop, ap, sym, ◌∙◌, ◌⊎◌, inl, inr, ◌≡◌, ◌==◌, list_eq, nat_eq, if◌then◌else◌, refl, arith,
}
use mathlib.Core.List.{append-nil}
use omafile.Paths.{FilePath}
use omafile.Error.{errno}
use omafile.Host.Reads.{IsHonest}
use omafile.Host.Machine.{Node, file, dir, Read, chunk, failed, read_error, payload, World, Host}
use omafile.Journal.{Journal}
use omafile.Engine.Stream.Filled.{IsBounded}
use omafile.Engine.FreeName.Chosen.{StatsWork}

-- A read past the largest offset fails.
abbrev pub past_end : Bytes → List Read
past_end [] = []
past_end (b ∷ bs) = failed (errno 27) ∷ []

-- Every read returns all that is left, up to the largest offset.
abbrev pub whole_reads : ℕ → Bytes → List Read
whole_reads t content = chunk (take (2 ^ 63 - 1) content) ∷ past_end (drop (2 ^ 63 - 1) content)

-- Directories of one depth are on one device.
abbrev pub ideal : Host
ideal = record {
  fault = λ t. none;
  stat_fault = λ t. none;
  torn = λ t. 0;
  reads = whole_reads;
  device = length;
  clones = λ t. false;
  dir_size = 4096;
  listing = λ t files p. [];
  sha256 = λ bytes. bytes;
  to_vec_pretty = λ e. [];
  from_slice = λ bytes. none;
}

-- From the eighteenth call on, everything that changes a file fails.
abbrev pub failing : Host
failing = record ideal {
  fault = λ t. elim (Prim.Native.Nat.compare t 17) [
    | Prim.Native.Nat.Ordering.gt ↦ some (errno 5)
    | _ ↦ none
  ];
}

length-take_le : (n : ℕ) (xs : Bytes) → length (take n xs) ≤ n
length-take_le zero xs = omega arith
length-take_le (suc n) [] = omega arith
length-take_le (suc n) (x ∷ xs) = omega (arith, length-take_le n xs)

payload-past_end : (rest : Bytes) → payload (past_end rest) ≡ []
payload-past_end [] = refl
payload-past_end (b ∷ bs) = refl

payload_one : (xs rest : Bytes) → payload (chunk xs ∷ past_end rest) ≡ xs
payload_one [] rest = refl
payload_one (x ∷ xs) rest = rw (payload-past_end rest) (append-nil (x ∷ xs))

pub ideal-IsBounded : IsBounded ideal
ideal-IsBounded t content =
    rw (payload_one (take (2 ^ 63 - 1) content) (drop (2 ^ 63 - 1) content))
      (omega (arith, length-take_le (2 ^ 63 - 1) content))

take_all : (n : ℕ) (xs : Bytes) → drop n xs ≡ [] → take n xs ≡ xs
take_all zero xs h = sym h
take_all (suc n) [] h = refl
take_all (suc n) (x ∷ xs) h = ap (λ t. x ∷ t) (take_all n xs h)

none_past :
    (xs rest : Bytes) → read_error (chunk xs ∷ past_end rest) ≡ none → (xs ≡ []) ⊎ (rest ≡ [])
none_past [] rest h = inl refl
none_past (x ∷ xs) [] h = inr refl
none_past (x ∷ xs) (b ∷ bs) h = cc

take_none : (n : ℕ) (xs : Bytes) → take (suc n) xs ≡ [] → xs ≡ []
take_none n [] h = refl
take_none n (x ∷ xs) h = cc

honest_to :
    (n : ℕ) (xs : Bytes)
    → read_error (chunk (take (suc n) xs) ∷ past_end (drop (suc n) xs)) ≡ none
    → payload (chunk (take (suc n) xs) ∷ past_end (drop (suc n) xs)) ≡ xs
honest_to n xs h = elim (none_past (take (suc n) xs) (drop (suc n) xs) h) [
  | inl e ↦ payload_one _ _ ∙ (e ∙ sym (take_none n xs e))
  | inr e ↦ payload_one _ _ ∙ take_all (suc n) xs e
]

pub ideal-IsHonest : IsHonest ideal
ideal-IsHonest t content h = honest_to (2 ^ 63 - 2) content h

pub ideal-StatsWork : StatsWork ideal
ideal-StatsWork t = refl

abbrev pub src : FilePath
src = codes "a.txt" ∷ codes "s" ∷ []

abbrev pub dst : FilePath
dst = codes "a.txt" ∷ codes "d" ∷ []

abbrev pub journal : Journal
journal = record { folder = codes "journal" ∷ [] }

abbrev pub tree : FilePath → Option Node
tree p =
    if p == []
    then some dir
    else if p == codes "s" ∷ []
    then some dir
    else if p == codes "d" ∷ []
    then some dir
    else if p == codes "journal" ∷ []
    then some dir
    else if p == src
    then some (file (codes "hello") true)
    else if p == dst
    then some (file (codes "old") true)
    else none

abbrev pub start : World
start = record { files = tree; clock = 0; reported = [] }
