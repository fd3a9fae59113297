-- ===== src/Cmdline/Usage.antt =====
-- `print_usage`: the text that goes to the standard output.
use vtb.Prelude.{ℕ, ◌-◌, [], ◌∷◌, ◌++◌, if◌then◌else◌, length, replicate, Bytes, text}
use vtb.Cmdline.{CmdlineArgumentFormat, Arguments}

-- `std::left << std::setw(width) << s`
unfoldable pub pad : ℕ → Bytes → Bytes
pad width s = s ++ replicate (width - length s) b' '

abbrev pub newline : Bytes
newline = 10 ∷ []

usage_row : CmdlineArgumentFormat → Bytes
unfolding pad
usage_row arg =
    pad 25 arg.long_name
    ++ (pad 10 arg.short_name
        ++ (pad 55 arg.description
            ++ ((if arg.required then text "Yes" else text "No") ++ newline)))

usage_rows : Arguments → Bytes
unfolding usage_row
usage_rows [] = []
usage_rows (arg ∷ arguments) = usage_row arg ++ usage_rows arguments

unfoldable pub print_usage : Arguments → Bytes
unfolding usage_rows
print_usage arguments =
    newline
    ++ (text "Usage: ./app [EAL options] -- [APP options]"
        ++ (newline
            ++ (newline
                ++ (pad 25 (text "Long Flag")
                    ++ (pad 10 (text "Short")
                        ++ (pad 55 (text "Description")
                            ++ (text "Required"
                                ++ (newline
                                    ++ (replicate 100 b'-'
                                        ++ (newline ++ (usage_rows arguments ++ newline)))))))))))
