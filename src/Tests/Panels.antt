-- ===== src/Tests/Panels.antt =====
-- The progress panel and the OCI layout at concrete inputs.
use imgpull.Base.{some, List, [], ◌∷◌, codes, decimal, arith}
use imgpull.Plan.{layer}
use imgpull.Progress.{Format, Snapshot}
use imgpull.Progress.Size.{HumanSized, human_size_lem}
use imgpull.Progress.Collect.{Live, snapshot}
use imgpull.Layout.{Indents}
use imgpull.Tests.{one_layer}

-- Bars that stay empty.
abbrev plain_format : Format
plain_format = record {
  tenths = λ a b. decimal a;
  percent = λ a b. decimal a;
  cells = λ _ _ _. 0;
  duration = λ n. decimal n;
}

human_size_lem_example : HumanSized plain_format 1048576
human_size_lem_example = human_size_lem plain_format 1048576 (omega arith)

abbrev one_live : Live
one_live =
    (
      codes "sha256:ll",
      record { kind = layer; state = codes "down"; done = 1; total = 2; speed = 1 },
    )
    ∷ []

abbrev snapped : Snapshot
snapped = snapshot one_layer.plan one_live 5

abbrev plain_indents : Indents
plain_indents = record { layout_version = λ v. v; index_text = λ _. some (codes "index") }
