-- ===== src/Journal/FileParse.antt =====
-- Parsing a whole file: all its records, up to the first that does not parse.
use lunet_locks.Prelude.{
  ℕ, zero, suc, ◌+◌, ◌*◌, ◌≤◌, ◌≡◌, refl, ap, ◌∙◌, inl, inr, false, none, some, Option-cases, List,
  [], ◌∷◌, ◌++◌, append_assoc, append-nil, arith, ltb, Bool-cases, length, drop, length-append,
  drop-append, length-drop, All,
}
use lunet_locks.Journal.Record.{
  record_size, JournalEvent, encode, parse_record, parse_from, parse_file,
}
use lunet_locks.Journal.RoundTrip.{IsEvent, length-encode, parse_record-encode}

-- A file of records, one behind the other.
abbrev pub encode_all : List JournalEvent → List ℕ
encode_all [] = []
encode_all (e ∷ es) = encode e ++ encode_all es

pub length-encode_all :
    (es : List JournalEvent) → All IsEvent es → length (encode_all es) ≡ 61 * length es
length-encode_all [] v = refl
length-encode_all (e ∷ es) v = omega (
  arith,
  length-append (encode e) (encode_all es),
  length-encode e v.0.holder_width,
  length-encode_all es v.1,
)

-- A parsed record consumed 61 bytes, all of which were there.
pub parse_record_consumes :
    (bytes : List ℕ) (e : JournalEvent) (n : ℕ)
    → parse_record bytes ≡ some (e, n)
    → (n ≡ record_size) × (record_size ≤ length bytes)
unfolding parse_record
parse_record_consumes bytes e n h = ground arith

parse_from-fuel :
    (f g : ℕ) (bytes : List ℕ)
    → length bytes ≤ f
    → length bytes ≤ g
    → parse_from f bytes ≡ parse_from g bytes
unfolding parse_from
parse_from-fuel zero zero bytes h k = refl
parse_from-fuel zero (suc g) bytes h k = ground arith
parse_from-fuel (suc f) zero bytes h k = ground arith
parse_from-fuel (suc f) (suc g) bytes h k = elim (Bool-cases (ltb (length bytes) record_size)) [
  | inl e ↦ rw e
  | inr e ↦ rw e (elim (Option-cases (parse_record bytes)) [
    | inl p ↦ rw p
    | inr ((ev, n), p) ↦
        let c = parse_record_consumes bytes ev n p in
        rw p (
          ap (◌∷◌ ev) (
            parse_from-fuel f g (drop n bytes) (omega (arith, c, length-drop n bytes))
              (omega (arith, c, length-drop n bytes))))
  ])
]

-- A record at the front of a file is the first that is parsed.
pub parse_file-cons :
    (e : JournalEvent) (rest : List ℕ)
    → IsEvent e
    → parse_file (encode e ++ rest) ≡ e ∷ parse_file rest
unfolding parse_file
parse_file-cons e rest v =
    let n : length (encode e ++ rest) ≡ suc (60 + length rest) =
      omega (arith, length-append (encode e) rest, length-encode e v.holder_width) in
    rw n (first_record e rest v n)
  where
    first_record :
        (e : JournalEvent) (rest : List ℕ)
        → IsEvent e
        → length (encode e ++ rest) ≡ suc (60 + length rest)
        → parse_from (suc (60 + length rest)) (encode e ++ rest) ≡ e ∷ parse_from (length rest) rest
    first_record e rest v n =
        unfold parse_from in
        let long : ltb (length (encode e ++ rest)) record_size ≡ false = ground arith in
        rw (long, parse_record-encode e rest v)
          (ap (◌∷◌ e) (
            ap (parse_from (60 + length rest))
              (drop-append 61 (encode e) rest (length-encode e v.holder_width))
            ∙ parse_from-fuel (60 + length rest) (length rest) rest (omega arith) (omega arith)))

-- A file that begins with encoded events parses to them, followed by what its tail parses to.
pub parse_file-encode_all :
    (es : List JournalEvent) (tail : List ℕ)
    → All IsEvent es
    → parse_file (encode_all es ++ tail) ≡ es ++ parse_file tail
parse_file-encode_all [] tail v = refl
parse_file-encode_all (e ∷ es) tail v =
    rw append_assoc (
      parse_file-cons e (encode_all es ++ tail) v.0
      ∙ ap (◌∷◌ e) (parse_file-encode_all es tail v.1))

-- Bytes that do not parse as a record parse to no event.
pub parse_file-corrupt : (bytes : List ℕ) → parse_record bytes ≡ none → parse_file bytes ≡ []
unfolding parse_file
parse_file-corrupt bytes h = at_fuel (length bytes) bytes h
  where
    at_fuel : (f : ℕ) (bytes : List ℕ) → parse_record bytes ≡ none → parse_from f bytes ≡ []
    at_fuel zero bytes h = unfold parse_from in refl
    at_fuel (suc f) bytes h = unfold parse_from in rw h (ground arith)

-- Corrupt-tail tolerance: events followed by bytes that do not parse as a record are all parsed, and
-- nothing else is.
pub parse_file_tail :
    (es : List JournalEvent) (tail : List ℕ)
    → All IsEvent es
    → parse_record tail ≡ none
    → parse_file (encode_all es ++ tail) ≡ es
parse_file_tail es tail v h =
    parse_file-encode_all es tail v ∙ rw (parse_file-corrupt tail h) (append-nil es)
