-- ===== src/Tests/CatalogTests.antt =====
-- channel_catalog.py: the theorems at concrete inputs.
use llm_plug.Common.{true, false, none, some, List, [], ◌∷◌, ◌≡◌, refl, string_eq}
use llm_plug.ModelGroup.{ModelGroup}
use llm_plug.Outcomes.Invariant
use llm_plug.QuotaLimits.{StoredFile}
use llm_plug.Catalog.{
  load_locked, ChannelCatalog, Circumstances, ChannelChange, conflict, deleted, of_channel,
  delete_channel,
}
use llm_plug.Catalog.Groups.{add_model_group}
use llm_plug.Catalog.Operations.{Operation, operate_all}
use llm_plug.Catalog.Sound
use llm_plug.Catalog.SoundChannels.{IsSound}
use llm_plug.Catalog.Effects.{Runtime, follow}
use llm_plug.Catalog.Effects.Deleted
use llm_plug.Catalog.Effects.Deleted.{IsDeleted}
use llm_plug.Tests.BalancerTests.{heavy, light, routing}
use llm_plug.Tests.OutcomesTests.{settings}

abbrev group : ModelGroup
group = record { id = "grp_1"; name = "any"; items = []; enabled = true; lazy_sticky = false }

abbrev namesake : ModelGroup
namesake = record group { id = "grp_2" }

abbrev catalog : ChannelCatalog
catalog = record {
  cached = none;
  stored = record { channels = heavy ∷ light ∷ []; model_groups = group ∷ [] };
}

abbrev well : Circumstances
well = record { is_fresh = true; is_written = true; is_synchronized = true }

abbrev unwritten : Circumstances
unwritten = record { is_fresh = false; is_written = false; is_synchronized = true }

abbrev operations : List (Circumstances × Operation)
operations =
    (well, Operation.adding_group namesake)
    ∷ (unwritten, Operation.deleting "ch_a")
    ∷ (well, Operation.toggling_group "grp_1")
    ∷ []

refused_name : (add_model_group well namesake catalog).1 ≡ conflict
unfolding add_model_group
refused_name = refl

operate_all-IsSound_example : IsSound (operate_all operations catalog)
operate_all-IsSound_example =
    Sound.operate_all-IsSound operations catalog
      (record { cached = tt; stored = ((refl, (refl, tt)), (refl, tt), (refl, tt)) })

abbrev runtime : Runtime
runtime = record {
  routing = routing;
  windows = ("ch_a", 5 ∷ []) ∷ [];
  quota = record { limits = []; file = StoredFile.missing };
}

abbrev change : ChannelChange
change = record { kind = deleted; channel_id = "ch_a"; before = some heavy; after = none }

delete_channel-IsDeleted_example :
    IsDeleted "ch_a"
      (load_locked well catalog)
      runtime
      (follow true (delete_channel well "ch_a" catalog).1 runtime)
      (delete_channel well "ch_a" catalog).0
unfolding delete_channel
delete_channel-IsDeleted_example =
    Deleted.delete_channel-IsDeleted well true "ch_a" catalog runtime (of_channel change)
      (Invariant.initial-IsWellFormed settings) refl
