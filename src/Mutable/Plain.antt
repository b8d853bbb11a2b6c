-- ===== src/Mutable/Plain.antt =====
-- A store that is a map, and meets the laws of Mutable.
use haven_claw.Prelude.{Option, none, some, arith, bytes_comparable, bytes_beq_iff}
use haven_claw.Dict.{Dict, lookup, insert, delete, lookup-insert, lookup-delete}
use haven_claw.Bytes.{Bytes}
use haven_claw.TState.{not_found, Result, ok, err}
use haven_claw.Mutable.{Mutable, IsStore}

abbrev pub found : Option Bytes → Result Bytes
found (some v) = ok v
found none = err not_found

abbrev pub plain : Mutable (Dict Bytes Bytes)
plain = record {
  get_value = λ s k. found (lookup k s);
  insert = λ s k v. (insert k v s, none);
  remove = λ s k. (delete k s, none);
}

pub plain-IsStore : IsStore plain
plain-IsStore = record {
  insert_same = λ s k v readable done. ground (arith, lookup-insert k k v s, bytes_beq_iff k k);
  insert_other = λ s k v done j ne. ground (arith, lookup-insert k j v s);
  remove_other = λ s k done j ne. ground (arith, lookup-delete k j s);
}
