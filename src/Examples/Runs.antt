-- ===== src/Examples/Runs.antt =====
-- Texts that the program formats.
use golang_profiling.Base.{◌≡◌, refl, true, none, some, [], ◌∷◌}
use golang_profiling.Base.Text.{codes, decimal, digits_loop}
use golang_profiling.Collect.Perf.{sample_header, format_seconds, decimal_fixed}
use golang_profiling.Enhanced.{
  from_basic, from_dwarf, format_symbol, format_position, get_line_number, name_or_unknown,
}
use golang_profiling.Command.{default_args, perl_arguments}

-- The first sample, and one whose number has wrapped around.
first_sample : sample_header 1 ≡ codes "golang-profile 1 [000] 0.000001: cycles:"
unfolding sample_header format_seconds decimal_fixed decimal digits_loop
first_sample = refl

wrapped_sample :
    sample_header 0x8000_0000 ≡ codes "golang-profile -2147483648 [000] -2147.483648: cycles:"
unfolding sample_header format_seconds decimal_fixed decimal digits_loop
wrapped_sample = refl

dwarf_symbol :
    format_symbol
      (from_dwarf 16 (some (codes "main.f")) (some (codes "a.go")) (some 3) (some 7) none)
    ≡ codes "a.go:3:7 main.f"
unfolding format_symbol from_dwarf format_position get_line_number name_or_unknown decimal
    digits_loop
dwarf_symbol = refl

-- What comes from the table alone has no name and no file.
basic_symbol :
    format_symbol (from_basic (record { entry = 16; name_off = 4; file_off = 8; line = 3 }))
    ≡ codes "[unknown]"
unfolding format_symbol from_basic name_or_unknown
basic_symbol = refl

inverted_graph :
    perl_arguments (record default_args { inverted = true; subtitle = some (codes "web") })
    ≡ codes "/tmp/flamegraph_embedded.pl"
      ∷ (codes "--title"
          ∷ (codes "Golang CPU Profiling"
              ∷ (codes "--subtitle"
                  ∷ (codes "web"
                      ∷ (codes "--colors"
                          ∷ (codes "kernel_user"
                              ∷ (codes "--width"
                                  ∷ (codes "1200"
                                      ∷ (codes "--height"
                                          ∷ (codes "16"
                                              ∷ (codes "--fonttype"
                                                  ∷ (codes "Verdana"
                                                      ∷ (codes "--fontsize"
                                                          ∷ (codes "12"
                                                            ∷ (codes "--inverted"
                                                            ∷ (codes "stacks.folded"
                                                            ∷ []))))))))))))))))
unfolding perl_arguments decimal digits_loop
inverted_graph = refl
