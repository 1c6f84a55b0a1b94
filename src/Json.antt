-- ===== src/Json.antt =====
-- JSON values as `json.loads` returns them for the text of S-expressions: texts and arrays
-- (`smt2json` and `json2smt` of server/utils.py).
use Prim.Native.String.{◌++◌ as str_append}
use smts.Prelude.{String}

mutual
  pub data Json : Type 0 where
    str : String → Json
    array : Items → Json

  pub data Items : Type 0 where
    nil : Items
    cons : Json → Items → Items

-- `'({})'.format(' '.join(map(smt, obj)))`, and the items joined by blanks
unfoldable mutual
  pub smt_text : Json → String
  smt_text (str s) = s
  smt_text (array l) = str_append "(" (str_append (smt_items l) ")")

  pub smt_items : Items → String
  smt_items nil = ""
  smt_items (cons j nil) = smt_text j
  smt_items (cons j (cons k l)) = str_append (smt_text j) (str_append " " (smt_items (cons k l)))

-- `'\n'.join(map(smt, obj))`
unfoldable pub smt_lines_of : Items → String
unfolding smt_text
smt_lines_of nil = ""
smt_lines_of (cons j nil) = smt_text j
smt_lines_of (cons j (cons k l)) =
    str_append (smt_text j) (str_append "\n" (smt_lines_of (cons k l)))
