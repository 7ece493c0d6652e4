-- ===== src/Subgraph/Memory.antt =====
-- A store in memory that meets the interface of packages/subgraph's entity store.
use Prim.Native.String.{◌++◌ as str_append}
use repayd.Common.{
  ℕ, ◌/◌, ◌%◌, String, refl, Option, none, some, [], ◌∷◌, ◌==◌, if◌then◌else◌, str_eq,
}
use repayd.Subgraph.Graph.{Graph, Bytes}

abbrev digit : ℕ → String
digit n =
    if n == 0
    then "0"
    else if n == 1
    then "1"
    else if n == 2
    then "2"
    else if n == 3
    then "3"
    else if n == 4
    then "4"
    else if n == 5
    then "5"
    else if n == 6
    then "6"
    else if n == 7
    then "7"
    else if n == 8
    then "8"
    else if n == 9
    then "9"
    else if n == 10
    then "a"
    else if n == 11
    then "b"
    else if n == 12
    then "c"
    else if n == 13
    then "d"
    else if n == 14
    then "e"
    else "f"

abbrev hex_digits : Bytes → String
hex_digits [] = ""
hex_digits (b ∷ bs) = str_append (digit (b / 16)) (str_append (digit (b % 16)) (hex_digits bs))

-- a table is a function from ids
instance abbrev pub memory : Graph
memory = record {
  Table = λ V. String → Option V;
  load = λ t id. t id;
  save = λ t id v other. if str_eq id other then some v else t other;
  no_entities = λ id. none;
  load-save = λ t id other v. refl;
  load-no_entities = λ id. refl;
  to_hex_string = λ b. str_append "0x" (hex_digits b);
  to_string = λ n. hex_digits (n ∷ []);
  concat_i32 = λ b i. i ∷ b;
  concat = str_append;
}
