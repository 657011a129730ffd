-- ===== src/Examples/Kernels.antt =====
-- Command lines of the kernel.
use debug_bootstrap.Prelude.{◌≡◌, refl, some, none, List, [], ◌∷◌, Bytes, codes, split, bytes_equal}
use debug_bootstrap.Prelude.Dict.{lookup}
use debug_bootstrap.Utils.Kernel.{parse_kernel_options, cmdline, show_options}
use debug_bootstrap.Utils.Kernel.Options.{given, option_of, parse_kernel_options-lookup}

-- Words between single spaces
abbrev words : Bytes → List Bytes
words s = split b' ' s

abbrev line : Bytes
line = codes "quiet console=tty1 console console=ttyS0 console=tty0"

parse-line :
    lookup (codes "console") (parse_kernel_options words line)
    ≡ some (codes "ttyS0" ∷ codes "tty0" ∷ [])
unfolding parse_kernel_options split
parse-line = refl

show-line :
    show_options
      (parse_kernel_options words line)
      (codes "console" ∷ codes "quiet" ∷ codes "none" ∷ [])
    ≡ codes "console=ttyS0, console=tty0, quiet"
unfolding parse_kernel_options split show_options
show-line = refl

cmdline-line : cmdline (parse_kernel_options words line) ≡ codes "quiet console=ttyS0 console=tty0"
unfolding parse_kernel_options split cmdline
cmdline-line = refl

parse_kernel_options-lookup_example :
    lookup (codes "console") (parse_kernel_options words line)
    ≡ option_of none (given (codes "console") (words line))
parse_kernel_options-lookup_example = parse_kernel_options-lookup words line (codes "console")
