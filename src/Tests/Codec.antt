-- ===== src/Tests/Codec.antt =====
-- A printer and a parser of documents, to stand for cJSON in the runs.
use monitor_node.Prelude.{
  ℕ, zero, suc, ◌≡◌, refl, Str, Option, none, some, List, [], ◌∷◌, ◌++◌, length, take, drop,
}
use monitor_node.InfoManager.Json.{Entry, Json, array}

put_field : Option Str → List ℕ → List ℕ
put_field none rest = 0 ∷ rest
put_field (some s) rest = suc (length s) ∷ s ++ rest

take_field : List ℕ → Option Str × List ℕ
take_field [] = (none, [])
take_field (zero ∷ rest) = (none, rest)
take_field (suc n ∷ rest) = (some (take n rest), drop n rest)

take-++ : (s r : List ℕ) → take (length s) (s ++ r) ≡ s
take-++ [] r = refl
take-++ (c ∷ s) r = rw (take-++ s r)

drop-++ : (s r : List ℕ) → drop (length s) (s ++ r) ≡ r
drop-++ [] r = refl
drop-++ (c ∷ s) r = drop-++ s r

take-put_field : (f : Option Str) (rest : List ℕ) → take_field (put_field f rest) ≡ (f, rest)
unfolding take_field put_field
take-put_field none rest = refl
take-put_field (some s) rest = rw (take-++ s rest, drop-++ s rest)

put_entry : Entry → List ℕ → List ℕ
put_entry e rest = put_field e.linked_node (
    put_field e.interface_name
      (put_field e.updated_time (put_field e.tx (put_field e.rx (put_field e.current_round rest)))))

take_entry : List ℕ → Entry × List ℕ
take_entry l =
    let (a, l1) = take_field l in
    let (b, l2) = take_field l1 in
    let (c, l3) = take_field l2 in
    let (d, l4) = take_field l3 in
    let (e, l5) = take_field l4 in
    let (f, l6) = take_field l5 in
    (
      record {
        linked_node = a;
        interface_name = b;
        updated_time = c;
        tx = d;
        rx = e;
        current_round = f;
      },
      l6,
    )

take-put_entry : (e : Entry) (rest : List ℕ) → take_entry (put_entry e rest) ≡ (e, rest)
unfolding take_entry put_entry
take-put_entry e rest =
    rw (
      take-put_field, take-put_field, take-put_field, take-put_field, take-put_field,
      take-put_field,
    )

put_entries : List Entry → List ℕ
put_entries [] = []
put_entries (e ∷ es) = put_entry e (put_entries es)

take_entries : ℕ → List ℕ → List Entry
take_entries zero l = []
take_entries (suc n) l = (take_entry l).0 ∷ take_entries n (take_entry l).1

take-put_entries : (es : List Entry) → take_entries (length es) (put_entries es) ≡ es
unfolding take_entries put_entries
take-put_entries [] = refl
take-put_entries (e ∷ es) = rw (take-put_entry e (put_entries es), take-put_entries es)

pub print_document : List Entry → Str
print_document es = length es ∷ put_entries es

pub parse_document : Str → Option Json
parse_document [] = none
parse_document (n ∷ l) = some (array (take_entries n l))

pub parse-print_document : (es : List Entry) → parse_document (print_document es) ≡ some (array es)
unfolding parse_document print_document
parse-print_document es = rw (take-put_entries es)
