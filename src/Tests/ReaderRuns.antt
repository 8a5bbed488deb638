-- ===== src/Tests/ReaderRuns.antt =====
-- Runs of the JSON reader, the byte form and the listing of programs, and of the benchmark.
use rust_hotpath_ipc.Prelude.{
  ℕ, ◌+◌, ◌-◌, ◌*◌, ◌≡◌, refl, true, ◌&&◌, Option, none, some, List, [], ◌∷◌, ◌++◌, arith, leb,
  if◌then◌else◌,
}
use rust_hotpath_ipc.Prelude.Int.{pos}
use rust_hotpath_ipc.Prelude.Text.{Text, codes, text_eq}
use rust_hotpath_ipc.Json
use rust_hotpath_ipc.Json.{
  Json, null, bool, num, str, arr, obj, no_items, item, no_fields, field, ok, err, bad_number,
}
use rust_hotpath_ipc.Json.Print.{print, settle, IsShown, IsPrintable, all_num_chars, is_ascii}
use rust_hotpath_ipc.Json.Pieces.{ends_number}
use rust_hotpath_ipc.Json.RoundTrip.{parse-print}
use rust_hotpath_ipc.Graph
use rust_hotpath_ipc.Graph.Encode.{
  encode, NodesAreWritable, KeysDiffer, property_fields, AllShown, EndsAreNamed, IsWritable,
  PairsAreAscii,
}
use rust_hotpath_ipc.Graph.RoundTrip.{parse-encode}
use rust_hotpath_ipc.Compiler.{GNode, GraphSpec}
use rust_hotpath_ipc.Vm.{Op}
use rust_hotpath_ipc.Vm.Bytes.{program_to_bytes, read_program}
use rust_hotpath_ipc.Vm.Bytes.RoundTrip.{read_program-program_to_bytes, PeriodsFit}
use rust_hotpath_ipc.Compiler.Shape.{scan, slot_step}
use rust_hotpath_ipc.Vm.Listing.{show_nat, disassemble}
use rust_hotpath_ipc.Disasm.{Outcome, disasm}
use rust_hotpath_ipc.Messages.{OrderCommand}
use rust_hotpath_ipc.Bench.{message, receive_all, new_subscriber}
use rust_hotpath_ipc.Bench.Tally.{total_received, total_lost, last_id, receive_all-Ascend, Ascend}
use rust_hotpath_ipc.Tests.Data.{whole, drawn}

-- Whole numbers in decimal digits.
abbrev digits_of : ℕ → Text → Option ℕ
digits_of n [] = some n
digits_of n (c ∷ t) =
    let rest = digits_of (10 * n + (c - b'0')) t in if leb b'0' c && leb c b'9' then rest else none

abbrev parse_digits : Text → Option ℕ
parse_digits [] = none
parse_digits (c ∷ t) = digits_of 0 (c ∷ t)

twelve-IsShown : IsShown parse_digits show_nat 12
unfolding show_nat all_num_chars
twelve-IsShown = record { readable = refl; numeric = refl }

-- {"a":12,"b\n":[null,"x\"y"],"a":true}
abbrev value : Json ℕ
value = obj (
    field (codes "a") (num 12) (
      field (codes "b\n") (arr (item null (item (str (codes "x\"y")) no_items)))
        (field (codes "a") (bool true) no_fields)))

parse-print_example :
    Json.parse parse_digits (print show_nat value ++ codes ", and more")
    ≡ ok (settle value) (codes ", and more")
unfolding IsPrintable is_ascii ends_number Json.is_num_char
parse-print_example =
    parse-print show_nat parse_digits refl value (codes ", and more")
      (refl, twelve-IsShown, (refl, (tt, (refl, tt)), (refl, tt, tt))) refl

abbrev node_a : GNode ℕ
node_a = record {
  id = codes "e";
  ntype = codes "ema";
  nums = (codes "period", 12) ∷ [];
  strs = (codes "name", codes "fast") ∷ [];
}

abbrev spec : GraphSpec ℕ
spec = record { nodes = node_a ∷ []; connections = (codes "d", codes "e") ∷ [] }

parse-encode_example : Graph.parse parse_digits (print show_nat (encode spec) ++ []) ≡ ok spec []
unfolding NodesAreWritable KeysDiffer property_fields Json.find text_eq AllShown EndsAreNamed
    ends_number PairsAreAscii is_ascii
parse-encode_example =
    parse-encode parse_digits show_nat refl spec [] (writable, tt) (refl, refl, tt) (cc, cc, tt)
      refl
  where
    writable : IsWritable parse_digits show_nat node_a
    writable = record {
      ascii_id = refl;
      ascii_ntype = refl;
      ascii_strs = (refl, refl, tt);
      shown_nums = (refl, twelve-IsShown, tt);
      keys_differ = (refl, (refl, tt));
    }

-- A letter outside ASCII, two bytes in UTF-8, is read as two characters.
two_characters :
    Json.parse parse_digits (print show_nat (str (codes "é"))) ≡ ok (str (0xc3 ∷ 0xa9 ∷ [])) []
unfolding print Json.parse
two_characters = refl

-- What follows the value and most of a literal are not read, and a comma may be missing.
lenient :
    Json.parse parse_digits (codes "[nope true 3 4] junk")
    ≡ ok (arr (item null (item (bool true) (item (num 3) (item (num 4) no_items))))) (codes " junk")
unfolding Json.parse
lenient = refl

-- The empty text between the bracket and the brace is no number.
stray_brace : Json.parse parse_digits (codes "[}") ≡ err bad_number
unfolding Json.parse
stray_brace = refl

abbrev program : List (Op ℕ)
program =
    Op.push_price
    ∷ Op.push_const 7
    ∷ Op.gt
    ∷ Op.ema 0 300
    ∷ Op.momentum 1 5
    ∷ Op.lt
    ∷ Op.and
    ∷ Op.buy
    ∷ []

-- Eight bytes for a number below 256.
abbrev eight_bytes : ℕ → List ℕ
eight_bytes n = n ∷ 0 ∷ 0 ∷ 0 ∷ 0 ∷ 0 ∷ 0 ∷ 0 ∷ []

abbrev first_byte : List ℕ → ℕ
first_byte [] = 0
first_byte (n ∷ _) = n

read_program-program_to_bytes_example :
    read_program first_byte 40 0 (program_to_bytes eight_bytes program) ≡ some program
unfolding scan slot_step PeriodsFit program_to_bytes
read_program-program_to_bytes_example =
    read_program-program_to_bytes eight_bytes first_byte (λ c. refl) (λ c. refl) program 40 0 2 refl
      (omega arith) (omega arith)

-- A period of 2^16 is written as 0.
period_cut :
    program_to_bytes eight_bytes (Op.ema 0 65_536 ∷ [])
    ≡ program_to_bytes eight_bytes (Op.ema 0 0 ∷ [])
unfolding program_to_bytes
period_cut = refl

listing :
    disassemble show_nat (Op.push_price ∷ Op.ema 0 12 ∷ [])
    ≡ codes "  0  0x41  PUSH_PRICE\n  1  0x60  EMA period=12 slot=0\n"
unfolding disassemble
listing = refl

-- The messages 3, 4 and 7: 5 and 6 are lost.
abbrev received : List (ℕ × OrderCommand)
received = (12, message 10 3) ∷ (15, message 11 4) ∷ (20, message 18 7) ∷ []

receive_all-Ascend_example :
    (total_received (receive_all whole (pos 1) received new_subscriber) ≡ 3)
    × (3
          + (total_received (receive_all whole (pos 1) received new_subscriber)
              + total_lost (receive_all whole (pos 1) received new_subscriber))
        ≡ 8)
unfolding Ascend message last_id
receive_all-Ascend_example =
    receive_all-Ascend whole (pos 1) 12 (message 10 3)
      ((15, message 11 4) ∷ (20, message 18 7) ∷ [])
      (omega arith, omega arith, (omega arith, omega arith, (omega arith, omega arith, tt)))

drawn_listing :
    disasm whole (λ x. codes "1.5") (λ t. none) drawn
    ≡ Outcome.printed (codes "2 ops:\n  0  0x41  PUSH_PRICE\n  1  0x30  BUY\n")
unfolding disasm Graph.parse Json.parse text_eq rust_hotpath_ipc.Compiler.compile show_nat
    disassemble
drawn_listing = refl
