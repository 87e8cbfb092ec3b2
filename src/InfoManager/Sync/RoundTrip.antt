-- ===== src/InfoManager/Sync/RoundTrip.antt =====
-- What one node prints, another takes over unchanged.
use monitor_node.Prelude.{
  ℕ, ◌^◌, ◌<◌, ◌≡◌, refl, ap, inl, inr, ℤ, pos, success, to_i32_id, IsInt, Str, strcmp_eq,
  strcmp_eq-eq, strcmp_eq_refl, print_int, print_unsigned, strtoul-print_unsigned, strtol-print_int,
  Option, none, some, List, [], ◌∷◌, All, arith, Bool-cases, if◌then◌else◌,
}
use monitor_node.InfoManager.Types.{Manager, CommunicationInfo}
use monitor_node.InfoManager.Records.{find_record, refreshed}
use monitor_node.InfoManager.Json.{
  Entry, array, Platform, TimeRoundTrips, string_to_time_t, time_t_to_string, entry_of, entries,
}
use monitor_node.InfoManager.Newest.{next_batch, parse_newest_communication_infos_to_json}
use monitor_node.InfoManager.Sync.{
  string_to_unsigned_long, string_to_int, upsert, read_entry, merge_entries, update_from_document,
  update_communication_info_array_from_json,
}

-- The values of a result fit their C types, and its time can be printed and read.
pub record IsPrintable (p : Platform) (c : CommunicationInfo) : Type 0 where
  pub time : TimeRoundTrips p c.updated_time
  pub tx_fits : c.tx < 2 ^ 64
  pub rx_fits : c.rx < 2 ^ 64
  pub round_fits : IsInt c.current_round

-- A result as the receiver holds it: not yet passed on.
abbrev pub fresh : CommunicationInfo → CommunicationInfo
fresh c = record c { if_newest_flag = pos 1 }

string_to_int-print_int : (a : ℤ) → IsInt a → string_to_int (print_int a) ≡ a
unfolding string_to_int
string_to_int-print_int a h = rw (strtol-print_int a h) (to_i32_id a h.above h.below)

same_name :
    (c d : CommunicationInfo)
    → d.interface_name ≡ c.interface_name
    → refreshed c.linked_node c.updated_time c.tx c.rx c.current_round d ≡ fresh c
same_name c d e = ap (λ (n : Str). record c { interface_name = n; if_newest_flag = pos 1 }) e

find_record-upsert :
    (c : CommunicationInfo) (other : Str) (ds : List CommunicationInfo)
    → find_record other (upsert c ds)
      ≡ (if strcmp_eq c.interface_name other then some (fresh c) else find_record other ds)
unfolding find_record upsert
find_record-upsert c other [] = refl
find_record-upsert c other (d ∷ ds) =
    elim (Bool-cases (strcmp_eq d.interface_name c.interface_name)) [
      | inl same ↦
          let e = strcmp_eq-eq d.interface_name c.interface_name same in
          rw (same, same_name c d e) (ground (arith, e))
      | inr differ ↦ ground (
        arith,
        find_record-upsert c other ds,
        strcmp_eq-eq c.interface_name other,
        strcmp_eq-eq d.interface_name other,
        strcmp_eq_refl other,
      )
    ]

-- The last result of the list with the name.
abbrev pub latest : Str → List CommunicationInfo → Option CommunicationInfo
latest name [] = none
latest name (c ∷ cs) = elim (latest name cs) [
  | none ↦ if strcmp_eq c.interface_name name then some c else none
  | some d ↦ some d
]

tx_read : (n : ℕ) → n < 2 ^ 64 → string_to_unsigned_long (print_unsigned n) ≡ n
unfolding string_to_unsigned_long
tx_read n h = strtoul-print_unsigned n h

upsert_all : List CommunicationInfo → List CommunicationInfo → List CommunicationInfo
upsert_all [] cs = cs
upsert_all (c ∷ l) cs = upsert_all l (upsert (fresh c) cs)

find_record-upsert_all :
    (name : Str) (l cs : List CommunicationInfo)
    → find_record name (upsert_all l cs)
      ≡ elim (latest name l) [ none ↦ find_record name cs | some c ↦ some (fresh c) ]
unfolding upsert_all
find_record-upsert_all name [] cs = refl
find_record-upsert_all name (c ∷ l) cs = ground (
  arith,
  find_record-upsert_all name l (upsert (fresh c) cs),
  find_record-upsert (fresh c) name cs,
)

module _ (p : Platform) where
  string_to_time_t-printed :
      (t : ℤ)
      → TimeRoundTrips p t
      → (text : Str) × ((time_t_to_string p t 80).1 ≡ some text)
        × ((string_to_time_t p text).1 ≡ some t)
  unfolding time_t_to_string string_to_time_t
  string_to_time_t-printed t h =
      (h.text, ground (arith, h.local, h.printed), ground (arith, h.parsed, h.made))

  read_entry-entry_of :
      (c : CommunicationInfo) → IsPrintable p c → read_entry p (entry_of p c) ≡ some (fresh c)
  unfolding read_entry entry_of
  read_entry-entry_of c h =
      let (text, printed, parsed) = string_to_time_t-printed c.updated_time h.time in
      ground (
        arith,
        printed,
        parsed,
        tx_read c.tx h.tx_fits,
        tx_read c.rx h.rx_fits,
        string_to_int-print_int c.current_round h.round_fits,
      )

  merge_entries-entries :
      (l cs : List CommunicationInfo)
      → All (IsPrintable p) l
      → merge_entries p (entries p l) cs ≡ some (upsert_all l cs)
  unfolding merge_entries entries upsert_all
  merge_entries-entries [] cs h = refl
  merge_entries-entries (c ∷ l) cs h =
      rw (read_entry-entry_of c h.0) (merge_entries-entries l (upsert (fresh c) cs) h.1)

  -- A node syncs a batch and another one takes the document over: the call succeeds, and for each
  -- name the receiver then holds the batch's last result with that name, marked as not yet passed
  -- on, and its own result for a name that the batch does not have. This is so when the parser gives
  -- back the printed entries, the batch's numbers fit their types and its times can be printed.
  pub find_record-sync :
      ((es : List Entry) → p.cjson_parse (p.cjson_print es) ≡ some (array es))
      → (sender receiver : Manager) (max sync : ℤ) (name : Str)
      → All (IsPrintable p) (next_batch sender max sync).0
      → (m : Manager) × (update_communication_info_array_from_json p receiver
            (parse_newest_communication_infos_to_json p sender max sync).0
          ≡ some (success, m))
        × (find_record name m.communication_info_array
            ≡ elim (latest name (next_batch sender max sync).0) [
              | none ↦ find_record name receiver.communication_info_array
              | some c ↦ some (fresh c)
            ])
  unfolding update_communication_info_array_from_json parse_newest_communication_infos_to_json
  find_record-sync lawful sender receiver max sync name h =
      let l = (next_batch sender max sync).0 in
      let cs = receiver.communication_info_array in
      (
        record receiver { communication_info_array = upsert_all l cs },
        rw (lawful (entries p l), update_from_document, merge_entries-entries l cs h),
        find_record-upsert_all name l cs,
      )
