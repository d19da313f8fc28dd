-- ===== src/Common/Color.antt =====
-- WrapperString, WrapperTitle, WrapperWarn and IgnoreErrWriteWindowTitle of pkg/common/util.go.
use gojump.Prelude.{Str, [], ◌∷◌, ◌++◌, Bool, true, false, codes, if◌then◌else◌}
use gojump.Prelude.Format.{join}

abbrev pub green : Str
green = codes "32m"

abbrev pub red : Str
red = codes "31m"

abbrev pub char_new_line : Str
char_new_line = 13 ∷ 10 ∷ []

-- ESC and "[".
abbrev color_escape : Str
color_escape = 27 ∷ codes "["

-- `bold`: whether there is one `meta` argument.
unfoldable pub wrapper_string : Str → Str → Bool → Str
wrapper_string text color bold =
    let wrap_with = if bold then codes "1" ∷ color ∷ [] else color ∷ [] in
    color_escape ++ (join (codes ";") wrap_with ++ (text ++ (color_escape ++ codes "0m")))

unfoldable pub wrapper_title : Str → Str
unfolding wrapper_string
wrapper_title text = wrapper_string text green true

unfoldable pub wrapper_warn : Str → Str
unfolding wrapper_string
wrapper_warn text = wrapper_string (text ++ (10 ∷ 13 ∷ [])) red false

-- What is written for the window's title.
unfoldable pub window_title : Str → Str
window_title title = 27 ∷ (codes "]2;" ++ (title ++ (7 ∷ [])))
