-- ===== src/Value/Dump.antt =====
-- `json.dumps(v, sort_keys=True)`, by which the program compares strictly: `fingerprint` of
-- analyze/model.py and `_same_value` of restore.py.
use ha_dashboard_history.Base.{
  ℕ, suc, ◌+◌, ◌-◌, ◌/◌, ◌%◌, Bool, true, false, ◌&&◌, List, [], ◌∷◌, ◌++◌, map, Text, codes, eqb,
  leb, ltb, ◌==◌, list_eq, nat_eq, if◌then◌else◌, sort_by, text_lt,
}
use ha_dashboard_history.Base.Int.{ℤ, pos, negsuc}
use ha_dashboard_history.Versions.Digits.{show}
use ha_dashboard_history.Value.{
  Value, null, bool, int, str, arr, obj, Items, nil, cons, Fields, end, field,
}

-- A hexadecimal digit, in lower case.
unfoldable pub hex_digit : ℕ → ℕ
hex_digit d = if ltb d 10 then b'0' + d else b'a' + (d - 10)

-- `\uXXXX`
unfoldable pub escape_unit : ℕ → Text
escape_unit c =
    b'\\'
    ∷ b'u'
    ∷ hex_digit (c / 4096)
    ∷ hex_digit (c / 256 % 16)
    ∷ hex_digit (c / 16 % 16)
    ∷ hex_digit (c % 16)
    ∷ []

-- One character of a string, as `ensure_ascii` prints it; beyond 16 bits as two surrogates.
unfoldable pub escape : ℕ → Text
escape c =
    if eqb c b'"'
    then codes "\\\""
    else if eqb c b'\\'
    then codes "\\\\"
    else if eqb c 10
    then codes "\\n"
    else if eqb c 13
    then codes "\\r"
    else if eqb c 9
    then codes "\\t"
    else if eqb c 12
    then codes "\\f"
    else if eqb c 8
    then codes "\\b"
    else if leb 32 c && leb c 126
    then c ∷ []
    else if ltb c 0x10000
    then escape_unit c
    else escape_unit (0xd800 + (c - 0x10000) / 1024) ++ escape_unit (0xdc00 + (c - 0x10000) % 1024)

escape_all : Text → Text
escape_all [] = []
escape_all (c ∷ s) = escape c ++ escape_all s

unfoldable pub dump_str : Text → Text
unfolding escape_all
dump_str s = b'"' ∷ (escape_all s ++ (b'"' ∷ []))

unfoldable pub dump_int : ℤ → Text
dump_int (pos n) = show n
dump_int (negsuc n) = b'-' ∷ show (suc n)

-- `", ".join(parts)`
unfoldable pub join : List Text → Text
join [] = []
join (s ∷ []) = s
join (s ∷ t ∷ parts) = s ++ (b',' ∷ b' ' ∷ join (t ∷ parts))

abbrev dump_field : Text × Text → Text
dump_field (k, v) = dump_str k ++ (b':' ∷ b' ' ∷ v)

abbrev key_before : Text × Text → Text × Text → Bool
key_before (k, v) (j, w) = text_lt k j

unfoldable mutual
  pub dump : Value → Text
  dump null = codes "null"
  dump (bool true) = codes "true"
  dump (bool false) = codes "false"
  dump (int n) = dump_int n
  dump (str s) = dump_str s
  dump (arr xs) = b'[' ∷ (join (dump_items xs) ++ (b']' ∷ []))
  dump (obj fs) =
      b'{' ∷ (join (map dump_field (sort_by key_before (dump_fields fs))) ++ (b'}' ∷ []))

  pub dump_items : Items → List Text
  dump_items nil = []
  dump_items (cons x xs) = dump x ∷ dump_items xs

  pub dump_fields : Fields → List (Text × Text)
  dump_fields end = []
  dump_fields (field k v fs) = (k, dump v) ∷ dump_fields fs

-- Equal as texts: this tells 1 from True, and does not see the order of keys.
unfoldable pub same_value : Value → Value → Bool
same_value v w = dump v == dump w
