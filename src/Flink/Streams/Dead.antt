-- ===== src/Flink/Streams/Dead.antt =====
-- The dead and the missing streams against the sources and operators.
use trino_gateway.Prelude.{
  ◌≡◌, refl, sym, ap, ◌∙◌, inl, inr, Bool, true, false, not, ◌&&◌, ◌||◌, Option, none, some, List,
  [], ◌∷◌, ◌++◌, append_assoc, append-nil, String, any, Bool-cases, arith, str_eq, eq_iff, get_or,
  if◌then◌else◌,
}
use trino_gateway.Prelude.Dict.{get, has_key, keys, is_some, get-put, has_key-keys}
use trino_gateway.Flink.Streams.{
  Source, Operator, Producer, source, operator, Consumer, Streams, produce_if_named, add_sources,
  consume, consume_all, add_operator, add_operators, no_streams, streams_of, DeadStream, dead_from,
  find_dead, dead_streams, MissingStream, find_missing, missing_streams,
}
use trino_gateway.Flink.Streams.Laws.{
  names, writes, reads, is_operator, produce_if_named-consumers, add_operators-operator,
  add_operators-producers, add_operators-consumers, add_sources-producers, add_sources-consumers,
  add_sources-operator,
}

any-append {ℓ} :
    {A : Type ℓ} (p : A → Bool) (xs ys : List A) → any p (xs ++ ys) ≡ (any p xs || any p ys)
any-append p [] ys = refl
any-append p (x ∷ xs) ys = ground (arith, any-append p xs ys)

-- Where two strings are equal, a test of the one is that of the other.
at_equal : (f : String → Bool) (k s : String) → (str_eq k s && f k) ≡ (str_eq k s && f s)
at_equal f k s = elim (Bool-cases (str_eq k s)) [
  | inl same ↦ ap (λ t. str_eq k s && f t) ((eq_iff k s).0 same)
  | inr differ ↦ rw differ refl
]

abbrev pub is_dead : String → List DeadStream → Bool
is_dead s dead = any (λ (d : DeadStream). str_eq d.stream s) dead

abbrev pub is_missing : String → List MissingStream → Bool
is_missing s missing = any (λ (m : MissingStream). str_eq m.stream s) missing

one_dead :
    (k s : String) (p : Option Producer) (b : Bool)
    → is_dead s (if b then [] else dead_from k p) ≡ (str_eq k s && (not b && is_operator p))
one_dead k s none true = ground arith
one_dead k s none false = ground arith
one_dead k s (some source) true = ground arith
one_dead k s (some source) false = ground arith
one_dead k s (some (operator n t)) true = ground arith
one_dead k s (some (operator n t)) false = ground arith

module _ (g : Streams) (s : String) where
  abbrev ends : String → Bool
  ends k = not (has_key k g.consumers) && is_operator (get k g.producers)

  find_dead-any :
      (ks : List String) → is_dead s (find_dead g ks) ≡ (any (λ k. str_eq k s) ks && ends s)
  unfolding find_dead
  find_dead-any [] = refl
  find_dead-any (k ∷ ks) =
      any-append (λ (d : DeadStream). str_eq d.stream s)
        (if has_key k g.consumers then [] else dead_from k (get k g.producers)) (find_dead g ks)
      ∙ (rw
          (
            one_dead k s (get k g.producers) (has_key k g.consumers),
            at_equal ends k s,
            find_dead-any ks,
          )
          (ground arith))

  find_missing-any :
      (ks : List String)
      → is_missing s (find_missing g ks) ≡ (any (λ k. str_eq k s) ks && not (has_key s g.producers))
  unfolding find_missing
  find_missing-any [] = refl
  find_missing-any (k ∷ ks) =
      let here = at_equal (λ j. not (has_key j g.producers)) k s in
      elim (Bool-cases (has_key k g.producers)) [
        | inl known ↦ rw known (rw (find_missing-any ks) (ground (arith, here, known)))
        | inr unknown ↦ rw unknown (rw (find_missing-any ks) (ground (arith, here, unknown)))
      ]

is_operator-is_some :
    (o : Option Producer) (b : Bool) → (is_some o && (b && is_operator o)) ≡ (b && is_operator o)
is_operator-is_some none b = ground arith
is_operator-is_some (some p) b = refl

module _ (sources : List Source) (operators : List Operator) (s : String) where
  consumers_lem : has_key s (streams_of sources operators).consumers ≡ any (reads s) operators
  unfolding streams_of has_key get
  consumers_lem =
      add_operators-consumers operators (add_sources sources no_streams) s
      ∙ (rw (add_sources-consumers sources no_streams) (ground arith))

  producers_lem :
      has_key s (streams_of sources operators).producers
      ≡ (any (λ t. names s t.name) sources || any (writes s) operators)
  unfolding streams_of has_key get
  producers_lem =
      add_operators-producers operators (add_sources sources no_streams) s
      ∙ (rw (add_sources-producers sources no_streams s) (ground arith))

  operator_lem :
      is_operator (get s (streams_of sources operators).producers) ≡ any (writes s) operators
  unfolding streams_of get
  operator_lem =
      add_operators-operator operators (add_sources sources no_streams) s
      ∙ (rw (add_sources-operator sources no_streams s refl) (ground arith))

  -- A stream is reported as dead exactly if an operator writes it and none reads it; a source whose
  -- stream is not read is not reported, unless an operator writes to it too.
  pub dead_streams-any :
      is_dead s (dead_streams (streams_of sources operators))
      ≡ (any (writes s) operators && not (any (reads s) operators))
  unfolding dead_streams has_key
  dead_streams-any =
      let g = streams_of sources operators in
      find_dead-any g s (keys g.producers)
      ∙ (ap (λ b. b && ends g s s) (sym (has_key-keys s g.producers))
          ∙ (is_operator-is_some (get s g.producers) (not (has_key s g.consumers))
              ∙ rw (consumers_lem, operator_lem) (ground arith)))

  -- A stream is reported as missing exactly if an operator reads it, no source has its name and no
  -- operator writes it.
  pub missing_streams-any : is_missing s (missing_streams (streams_of sources operators)) ≡ (
      any (reads s) operators
      && not (any (λ t. names s t.name) sources || any (writes s) operators))
  unfolding missing_streams
  missing_streams-any =
      let g = streams_of sources operators in
      find_missing-any g s (keys g.consumers)
      ∙ (ap (λ b. b && not (has_key s g.producers)) (sym (has_key-keys s g.consumers))
          ∙ rw (consumers_lem, producers_lem) refl)

-- The operators that read the stream, each as often as it lists it.
abbrev pub copies : Consumer → String → List String → List Consumer
copies c s [] = []
copies c s (t ∷ streams) = if str_eq t s then c ∷ copies c s streams else copies c s streams

abbrev pub readers : String → List Operator → List Consumer
readers s [] = []
readers s (o ∷ operators) = copies (o.name, o.kind) s o.input_streams ++ readers s operators

abbrev pub consumers_of : String → Streams → List Consumer
unfolding get
consumers_of s g = get_or (get s g.consumers) []

consume-consumers_of :
    (c : Consumer) (t s : String) (g : Streams)
    → consumers_of s (consume c t g) ≡ consumers_of s g ++ (if str_eq t s then c ∷ [] else [])
unfolding consume consumers_of
consume-consumers_of c t s g =
    ap (λ o. get_or o []) (get-put t s (consumers_of t g ++ (c ∷ [])) g.consumers)
    ∙ elim (Bool-cases (str_eq t s)) [
      | inl same ↦
          rw same (ap (λ k. get_or (get k g.consumers) [] ++ (c ∷ [])) ((eq_iff t s).0 same))
      | inr differ ↦ rw differ (sym (append-nil (get_or (get s g.consumers) [])))
    ]

consume_all-consumers_of :
    (c : Consumer) (streams : List String) (s : String) (g : Streams)
    → consumers_of s (consume_all c streams g) ≡ consumers_of s g ++ copies c s streams
unfolding consume_all consumers_of
consume_all-consumers_of c [] s g = sym (append-nil (consumers_of s g))
consume_all-consumers_of c (t ∷ streams) s g =
    consume_all-consumers_of c streams s (consume c t g)
    ∙ (ap (λ l. l ++ copies c s streams) (consume-consumers_of c t s g)
        ∙ elim (Bool-cases (str_eq t s)) [
          | inl same ↦ rw same (append_assoc (consumers_of s g) (c ∷ []) (copies c s streams))
          | inr differ ↦
              rw differ (ap (λ l. l ++ copies c s streams) (append-nil (consumers_of s g)))
        ])

add_operators-consumers_of :
    (operators : List Operator) (s : String) (g : Streams)
    → consumers_of s (add_operators operators g) ≡ consumers_of s g ++ readers s operators
unfolding add_operators add_operator consumers_of
add_operators-consumers_of [] s g = sym (append-nil (consumers_of s g))
add_operators-consumers_of (o ∷ operators) s g =
    let made = produce_if_named o.output_stream (operator o.name o.kind) g in
    add_operators-consumers_of operators s (add_operator o g)
    ∙ (ap (λ l. l ++ readers s operators)
          (consume_all-consumers_of (o.name, o.kind) o.input_streams s made
            ∙ ap (λ d. get_or (get s d) [] ++ copies (o.name, o.kind) s o.input_streams)
                (produce_if_named-consumers o.output_stream (operator o.name o.kind) g))
        ∙ append_assoc (consumers_of s g) (copies (o.name, o.kind) s o.input_streams)
            (readers s operators))

-- The consumers of a stream are the operators that read it, in the order of the jobspec, each as
-- often as it lists the stream.
pub streams_of-readers :
    (sources : List Source) (operators : List Operator) (s : String)
    → consumers_of s (streams_of sources operators) ≡ readers s operators
unfolding streams_of consumers_of get
streams_of-readers sources operators s =
    add_operators-consumers_of operators s (add_sources sources no_streams)
    ∙ ap (λ d. get_or (get s d) [] ++ readers s operators)
        (add_sources-consumers sources no_streams)
