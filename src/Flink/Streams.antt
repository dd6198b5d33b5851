-- ===== src/Flink/Streams.antt =====
-- analyze_flink_job.py: the streams of a jobspec, which `analyze_jobspec_yaml` reads from its YAML
-- file: who produces and who consumes each of them.
pub mod Laws
pub mod Dead
use trino_gateway.Prelude.{
  ℕ, Bool, true, false, not, ◌&&◌, Option, none, some, List, [], ◌∷◌, ◌++◌, String, any, length,
  map, str_eq, get_or, if◌then◌else◌,
}
use trino_gateway.Prelude.Text.{Text}
use trino_gateway.Prelude.Dict.{Dict, get, put, has_key, keys}

-- An entry of `sources`; a key may be absent, and so below.
pub record Source : Type 0 where
  pub name : Option String

-- The expression of an aggregation: a string, or another value.
pub data Expr : Type 0 where
  sql : Text → Expr
  other : Expr

-- An entry of `operators`; `aggregations` are those of its `config`.
pub record Operator : Type 0 where
  pub name : Option String
  pub output_stream : Option String
  pub input_streams : List String
  pub kind : Option Text
  pub parallelism : Option ℕ
  pub aggregations : List (String × Expr)

pub data Producer : Type 0 where
  source : Producer
  operator : Option String → Option Text → Producer

-- The name and the type of an operator.
abbrev pub Consumer : Type 0
Consumer = Option String × Option Text

pub record Streams : Type 0 where
  pub producers : Dict Producer
  pub consumers : Dict (List Consumer)
  pub all_streams : List String

-- `all_streams.add(s)`
unfoldable pub add_stream : String → List String → List String
add_stream s streams = if any (λ t. str_eq t s) streams then streams else s ∷ streams

unfoldable pub produce : String → Producer → Streams → Streams
unfolding put add_stream
produce s p g = record g {
  producers = put s p g.producers;
  all_streams = add_stream s g.all_streams;
}

-- A name that is absent or empty.
abbrev pub is_named : String → Bool
is_named s = not (str_eq s "")

abbrev pub produce_if_named : Option String → Producer → Streams → Streams
unfolding produce
produce_if_named none p g = g
produce_if_named (some s) p g = if is_named s then produce s p g else g

unfoldable pub add_sources : List Source → Streams → Streams
unfolding produce_if_named
add_sources [] g = g
add_sources (s ∷ sources) g = add_sources sources (produce_if_named s.name source g)

unfoldable pub consume : Consumer → String → Streams → Streams
unfolding put get add_stream
consume c s g = record g {
  consumers = put s (get_or (get s g.consumers) [] ++ (c ∷ [])) g.consumers;
  all_streams = add_stream s g.all_streams;
}

unfoldable pub consume_all : Consumer → List String → Streams → Streams
unfolding consume
consume_all c [] g = g
consume_all c (s ∷ streams) g = consume_all c streams (consume c s g)

unfoldable pub add_operator : Operator → Streams → Streams
unfolding produce_if_named consume_all
add_operator o g =
    consume_all (o.name, o.kind) o.input_streams
      (produce_if_named o.output_stream (operator o.name o.kind) g)

unfoldable pub add_operators : List Operator → Streams → Streams
unfolding add_operator
add_operators [] g = g
add_operators (o ∷ operators) g = add_operators operators (add_operator o g)

abbrev pub no_streams : Streams
no_streams = record { producers = []; consumers = []; all_streams = [] }

-- The graph of the streams.
unfoldable pub streams_of : List Source → List Operator → Streams
unfolding add_sources add_operators
streams_of sources operators = add_operators operators (add_sources sources no_streams)

pub record DeadStream : Type 0 where
  pub stream : String
  pub producer : Option String
  pub operator_type : Option Text

abbrev pub dead_from : String → Option Producer → List DeadStream
dead_from s none = []
dead_from s (some source) = []
dead_from s (some (operator n t)) = record { stream = s; producer = n; operator_type = t } ∷ []

-- The loop over the keys of `stream_producers`.
unfoldable pub find_dead : Streams → List String → List DeadStream
unfolding has_key get
find_dead g [] = []
find_dead g (s ∷ streams) =
    (if has_key s g.consumers then [] else dead_from s (get s g.producers)) ++ find_dead g streams

unfoldable pub dead_streams : Streams → List DeadStream
unfolding find_dead
dead_streams g = find_dead g (keys g.producers)

pub record MissingStream : Type 0 where
  pub stream : String
  pub consumers : List (Option String)

-- The loop over the keys of `stream_consumers`.
unfoldable pub find_missing : Streams → List String → List MissingStream
unfolding has_key get
find_missing g [] = []
find_missing g (s ∷ streams) =
    let rest = find_missing g streams in
    if has_key s g.producers
    then rest
    else record {
      stream = s;
      consumers = map (λ (c : Consumer). c.0) (get_or (get s g.consumers) []);
    }
      ∷ rest

unfoldable pub missing_streams : Streams → List MissingStream
unfolding find_missing
missing_streams g = find_missing g (keys g.consumers)
