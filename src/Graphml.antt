-- ===== src/Graphml.antt =====
-- src/netmirage-core/graphml.c, the GraphML parser over the SAX events of libxml. Its state, and the
-- nodes and links that it hands to its client (src/netmirage-core/graphml.h, src/netmirage-core/topology.h).
pub mod Start
pub mod Finish
pub mod Events
mod Tests
use netmirage.Prelude.{ℕ, Bool, Option, List}
use netmirage.Prelude.Text.{Text}
use netmirage.Mem.Flex.{Buffer}

-- A floating-point value as the program gets it. It only passes such a value on: the value is named
-- by the constant, or by the text that `strtod` or `strtof` reads.
pub data Decimal : Type 0 where
  zero_decimal infinity : Decimal
  strtod strtof : Text → Decimal

pub record TopoNode : Type 0 where
  pub client : Bool
  pub packet_loss : Decimal
  pub bandwidth_up : Decimal
  pub bandwidth_down : Decimal

pub record TopoLink : Type 0 where
  pub latency : Decimal
  pub packet_loss : Decimal
  pub jitter : Decimal
  pub queue_len : ℕ

pub record GmlNode : Type 0 where
  pub name : Text
  pub t : TopoNode

pub record GmlLink : Type 0 where
  pub source_name : Text
  pub target_name : Text
  pub weight : Decimal
  pub t : TopoLink

-- `GpUnknown`, `GpInitial`, `GpTopLevel`, `GpGraph`, `GpNode`, `GpEdge`, `GpData`
pub data GraphParserMode : Type 0 where
  in_unknown in_initial in_top_level in_graph in_node in_edge in_data : GraphParserMode

pub record NodeAttribs : Type 0 where
  pub type_id : Option Text
  pub packet_loss_id : Option Text
  pub bandwidth_up_id : Option Text
  pub bandwidth_down_id : Option Text

pub record EdgeAttribs : Type 0 where
  pub weight_id : Option Text
  pub latency_id : Option Text
  pub packet_loss_id : Option Text
  pub jitter_id : Option Text
  pub queue_len_id : Option Text

-- `Client` is what `userData` points to. The buffers that only hold a copy of a text (`dataKey`,
-- `nodeId`, `linkSourceId`, `linkTargetId`) are that text; `dataValue` is a buffer with its length.
pub record GraphParserState (Client : Type 0) : Type 0 where
  pub mode : GraphParserMode
  pub client_type : Option Text
  pub weight_key : Text
  pub unknown_depth : ℕ  -- unsigned int
  pub unknown_mode : GraphParserMode
  pub default_undirected : Bool
  pub node_attribs : NodeAttribs
  pub edge_attribs : EdgeAttribs
  pub data_key : Text
  pub data_value : Buffer
  pub data_value_len : ℕ
  pub data_mode : GraphParserMode
  pub node : GmlNode
  pub link : GmlLink
  pub dead : Bool
  pub user_data : Client
  pub user_error : ℕ

-- The attributes of an element, in order; `none` is a NULL pointer, which no loop may follow.
abbrev pub Atts : Type 0
Atts = Option (List (Text × Text))

-- What the client gives to the parser. A callback returns an error code, 0 for none.
pub record Callbacks (Client : Type 0) : Type 0 where
  pub new_node_func : GmlNode → Client → Client × ℕ
  pub new_link_func : GmlLink → Client → Client × ℕ
