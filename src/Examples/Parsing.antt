-- ===== src/Examples/Parsing.antt =====
-- A header of Go 1.18 parsed and found.
use golang_profiling.Base.{◌≡◌, refl, some, [], ◌∷◌, ◌++◌}
use golang_profiling.Base.Bytes.{Bytes, from_le, to_le}
use golang_profiling.Base.Text.{begins_with}
use golang_profiling.Base.Run.{done, Returns, slice_from}
use golang_profiling.Pclntab.Header.{go_magic_to_version, field_at}
use golang_profiling.Pclntab.Table.{read_word}
use golang_profiling.Pclntab.Locate.{
  pclntab_header_signature, search_go_pclntab, scan_loop, window_position, magic_at,
}
use golang_profiling.Pclntab.Locate.Sound.{Found, search_go_pclntab-Returns}

-- 72 bytes of header: no function, one file, text at 4096, and five offsets that point behind it.
abbrev header : Bytes
header =
    0xf0
    ∷ 0xff
    ∷ 0xff
    ∷ 0xff
    ∷ 0
    ∷ 0
    ∷ 1
    ∷ 8
    ∷ (to_le 8 0
        ++ (to_le 8 1
            ++ (to_le 8 4096
                ++ (to_le 8 72
                    ++ (to_le 8 72
                        ++ (to_le 8 72 ++ (to_le 8 72 ++ (to_le 8 72 ++ (1 ∷ 2 ∷ [])))))))))

search_go_pclntab-Returns_example :
    Returns
      (search_go_pclntab (0 ∷ 0 ∷ header) "x86_64")
      (Found (pclntab_header_signature "x86_64") (0 ∷ 0 ∷ header))
search_go_pclntab-Returns_example = search_go_pclntab-Returns (0 ∷ 0 ∷ header) "x86_64"

header_found : search_go_pclntab (0 ∷ 0 ∷ header) "x86_64" ≡ done (some header)
unfolding search_go_pclntab scan_loop window_position magic_at read_word begins_with
    pclntab_header_signature go_magic_to_version from_le to_le field_at slice_from
header_found = refl
