-- ===== src/InfoManager/File.antt =====
-- src/base/info_manager.c: `write_communication_info_array_to_json`, which replaces the results file
-- by all results and marks them as written. What the system calls do is a `Disk`.
pub mod Laws
use monitor_node.Prelude.{
  ℕ, negsuc, Str, Bool, Option, none, some, List, [], map, take, if◌then◌else◌,
}
use monitor_node.InfoManager.Types.{Manager, CommunicationInfo}
use monitor_node.InfoManager.Json.{Platform, parse_communication_info_array_to_json}

pub record Disk : Type 0 where
  pub opens : Bool
  pub locks : Bool
  pub writes : Option ℕ  -- how many bytes `write` takes; `none` for -1

-- What becomes of the file: it is left, or it holds the text.
pub data File : Type 0 where
  untouched : File
  holds : Str → File

abbrev pub mark_written : CommunicationInfo → CommunicationInfo
mark_written c = record c { if_newest_flag = negsuc 0 }

abbrev pub contents : Option ℕ → Str → Str
contents none text = []
contents (some n) text = take n text

-- O_TRUNC empties the file as it is opened.
unfoldable pub write_communication_info_array_to_json : Platform → Disk → Manager → File × Manager
write_communication_info_array_to_json p d m =
    let text = parse_communication_info_array_to_json p m in
    if d.opens
    then (if d.locks
        then (
          holds (contents d.writes text),
          record m { communication_info_array = map mark_written m.communication_info_array },
        )
        else (holds [], m))
    else (untouched, m)
