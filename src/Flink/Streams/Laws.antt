-- ===== src/Flink/Streams/Laws.antt =====
-- Which streams are dead and which are missing.
use trino_gateway.Prelude.{
  ◌≡◌, refl, ap, ◌∙◌, inl, inr, Bool, true, false, ◌&&◌, ◌||◌, Option, none, some, List, [], ◌∷◌,
  ◌++◌, String, any, Bool-cases, arith, str_eq, get_or, if◌then◌else◌,
}
use trino_gateway.Prelude.Dict.{get, has_key, get-put, has_key-put}
use trino_gateway.Flink.Streams.{
  Source, Operator, Producer, source, operator, Consumer, Streams, produce, is_named,
  produce_if_named, add_sources, consume, consume_all, add_operator, add_operators,
}

-- Whether the name is there and is `s`.
abbrev pub names : String → Option String → Bool
names s none = false
names s (some t) = is_named t && str_eq t s

-- The operator writes to the stream, or reads it.
abbrev pub writes : String → Operator → Bool
writes s o = names s o.output_stream

abbrev pub reads : String → Operator → Bool
reads s o = any (λ t. str_eq t s) o.input_streams

abbrev pub is_operator : Option Producer → Bool
is_operator none = false
is_operator (some source) = false
is_operator (some (operator n t)) = true

-- Consuming leaves the producers, and adds the streams.
consume_all-producers :
    (c : Consumer) (streams : List String) (g : Streams)
    → (consume_all c streams g).producers ≡ g.producers
unfolding consume_all consume
consume_all-producers c [] g = refl
consume_all-producers c (s ∷ streams) g = consume_all-producers c streams (consume c s g)

consume_all-consumers :
    (c : Consumer) (streams : List String) (g : Streams) (s : String)
    → has_key s (consume_all c streams g).consumers
      ≡ (any (λ t. str_eq t s) streams || has_key s g.consumers)
unfolding consume_all consume
consume_all-consumers c [] g s = refl
consume_all-consumers c (t ∷ streams) g s =
    rw
      (
        consume_all-consumers c streams (consume c t g) s,
        has_key-put t s (get_or (get t g.consumers) [] ++ (c ∷ [])) g.consumers,
      )
      (ground arith)

produce_if_named-get :
    (o : Option String) (p : Producer) (g : Streams) (s : String)
    → get s (produce_if_named o p g).producers ≡ (if names s o then some p else get s g.producers)
unfolding produce_if_named produce
produce_if_named-get none p g s = refl
produce_if_named-get (some t) p g s = elim (Bool-cases (is_named t)) [
  | inl named ↦ rw named (get-put t s p g.producers)
  | inr unnamed ↦ rw unnamed refl
]

pub produce_if_named-consumers :
    (o : Option String) (p : Producer) (g : Streams)
    → (produce_if_named o p g).consumers ≡ g.consumers
unfolding produce_if_named produce
produce_if_named-consumers none p g = refl
produce_if_named-consumers (some t) p g = ground arith

add_operator-get :
    (o : Operator) (g : Streams) (s : String)
    → get s (add_operator o g).producers
      ≡ (if writes s o then some (operator o.name o.kind) else get s g.producers)
unfolding add_operator
add_operator-get o g s =
    let made = produce_if_named o.output_stream (operator o.name o.kind) g in
    ap (get s) (consume_all-producers (o.name, o.kind) o.input_streams made)
    ∙ produce_if_named-get o.output_stream (operator o.name o.kind) g s

add_operator-consumers :
    (o : Operator) (g : Streams) (s : String)
    → has_key s (add_operator o g).consumers ≡ (reads s o || has_key s g.consumers)
unfolding add_operator
add_operator-consumers o g s =
    let made = produce_if_named o.output_stream (operator o.name o.kind) g in
    consume_all-consumers (o.name, o.kind) o.input_streams made s
    ∙ ap (λ d. reads s o || has_key s d)
        (produce_if_named-consumers o.output_stream (operator o.name o.kind) g)

pub add_operators-operator :
    (operators : List Operator) (g : Streams) (s : String)
    → is_operator (get s (add_operators operators g).producers)
      ≡ (any (writes s) operators || is_operator (get s g.producers))
unfolding add_operators
add_operators-operator [] g s = refl
add_operators-operator (o ∷ operators) g s =
    rw (add_operators-operator operators (add_operator o g) s, add_operator-get o g s)
      (ground arith)

pub add_operators-producers :
    (operators : List Operator) (g : Streams) (s : String)
    → has_key s (add_operators operators g).producers
      ≡ (any (writes s) operators || has_key s g.producers)
unfolding add_operators has_key
add_operators-producers [] g s = refl
add_operators-producers (o ∷ operators) g s =
    rw (add_operators-producers operators (add_operator o g) s, add_operator-get o g s)
      (ground arith)

pub add_operators-consumers :
    (operators : List Operator) (g : Streams) (s : String)
    → has_key s (add_operators operators g).consumers
      ≡ (any (reads s) operators || has_key s g.consumers)
unfolding add_operators
add_operators-consumers [] g s = refl
add_operators-consumers (o ∷ operators) g s =
    rw (add_operators-consumers operators (add_operator o g) s, add_operator-consumers o g s)
      (ground arith)

pub add_sources-producers :
    (sources : List Source) (g : Streams) (s : String)
    → has_key s (add_sources sources g).producers
      ≡ (any (λ t. names s t.name) sources || has_key s g.producers)
unfolding add_sources has_key
add_sources-producers [] g s = refl
add_sources-producers (t ∷ sources) g s =
    rw
      (
        add_sources-producers sources (produce_if_named t.name source g) s,
        produce_if_named-get t.name source g s,
      )
      (ground arith)

pub add_sources-consumers :
    (sources : List Source) (g : Streams) → (add_sources sources g).consumers ≡ g.consumers
unfolding add_sources
add_sources-consumers [] g = refl
add_sources-consumers (t ∷ sources) g =
    add_sources-consumers sources (produce_if_named t.name source g)
    ∙ produce_if_named-consumers t.name source g

pub add_sources-operator :
    (sources : List Source) (g : Streams) (s : String)
    → is_operator (get s g.producers) ≡ false
    → is_operator (get s (add_sources sources g).producers) ≡ false
unfolding add_sources
add_sources-operator [] g s h = h
add_sources-operator (t ∷ sources) g s h =
    add_sources-operator sources (produce_if_named t.name source g) s
      (rw (produce_if_named-get t.name source g s) (ground arith))
