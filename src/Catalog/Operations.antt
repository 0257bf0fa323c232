-- ===== src/Catalog/Operations.antt =====
-- channel_catalog.py: every operation of the catalog, in a sequence.
use llm_plug.Common.{String, List, [], ◌∷◌, none}
use llm_plug.Channel.{Channel}
use llm_plug.ModelGroup.{ModelGroup}
use llm_plug.Catalog.{
  ChannelCatalog, Circumstances, Updates, add_channel, update_channel, toggle_channel,
  delete_channel,
}
use llm_plug.Catalog.Groups.{
  add_model_group, update_model_group, toggle_model_group, delete_model_group,
}

pub data Operation : Type 0 where
  adding : Channel → Operation
  updating : String → Updates Channel → Operation
  toggling deleting : String → Operation
  adding_group : ModelGroup → Operation
  updating_group : String → Updates ModelGroup → Operation
  toggling_group deleting_group : String → Operation
  invalidating : Operation

-- _snapshot = None
unfoldable pub invalidate : ChannelCatalog → ChannelCatalog
invalidate self = record self { cached = none }

unfoldable pub operate : Circumstances → Operation → ChannelCatalog → ChannelCatalog
unfolding add_channel update_channel toggle_channel delete_channel add_model_group
    update_model_group toggle_model_group delete_model_group invalidate
operate o (adding channel) self = (add_channel o channel self).0
operate o (updating id updates) self = (update_channel o id updates self).0
operate o (toggling id) self = (toggle_channel o id self).0
operate o (deleting id) self = (delete_channel o id self).0
operate o (adding_group group) self = (add_model_group o group self).0
operate o (updating_group id updates) self = (update_model_group o id updates self).0
operate o (toggling_group id) self = (toggle_model_group o id self).0
operate o (deleting_group id) self = (delete_model_group o id self).0
operate o invalidating self = invalidate self

unfoldable pub operate_all : List (Circumstances × Operation) → ChannelCatalog → ChannelCatalog
unfolding operate
operate_all [] self = self
operate_all ((o, operation) ∷ rest) self = operate_all rest (operate o operation self)
