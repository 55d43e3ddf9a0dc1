-- ===== src/WritePolicy/Types.antt =====
-- The closed vocabularies of the write policy, and the validated proposal and authority.
use an_kla_memory.Base.{String, ◌==◌, Bool, Option, none, some, List, if◌then◌else◌}
use an_kla_memory.Json.{Fields}

pub data Stream : Type 0 where
  facts events episodes : Stream

pub data Operation : Type 0 where
  add supersede refute decay : Operation

pub data Representation : Type 0 where
  full summary : Representation

pub data AuthorityClass : Type 0 where
  tool_observed channel_confirmed model_derived derived_from_retrieval unresolved : AuthorityClass

pub data IssuerKind : Type 0 where
  tool channel model resolver unknown : IssuerKind

pub data Resolution : Type 0 where
  verified unresolved invalid : Resolution

-- `_STREAMS`
unfoldable pub stream_of : String → Option Stream
stream_of s =
    if s == "facts"
    then some facts
    else if s == "events"
    then some events
    else if s == "episodes"
    then some episodes
    else none

-- `_OPERATIONS`
unfoldable pub operation_of : String → Option Operation
operation_of s =
    if s == "add"
    then some add
    else if s == "supersede"
    then some supersede
    else if s == "refute"
    then some refute
    else if s == "decay"
    then some decay
    else none

-- `_REPRESENTATIONS`
unfoldable pub representation_of : String → Option Representation
representation_of s =
    if s == "full" then some full else if s == "summary" then some summary else none

-- `_AUTHORITY_CLASSES`
unfoldable pub authority_class_of : String → Option AuthorityClass
authority_class_of s =
    if s == "tool_observed"
    then some tool_observed
    else if s == "channel_confirmed"
    then some channel_confirmed
    else if s == "model_derived"
    then some model_derived
    else if s == "derived_from_retrieval"
    then some derived_from_retrieval
    else if s == "unresolved"
    then some AuthorityClass.unresolved
    else none

unfoldable pub issuer_kind_of : String → Option IssuerKind
issuer_kind_of s =
    if s == "tool"
    then some tool
    else if s == "channel"
    then some channel
    else if s == "model"
    then some model
    else if s == "resolver"
    then some resolver
    else if s == "unknown"
    then some unknown
    else none

unfoldable pub resolution_of : String → Option Resolution
resolution_of s =
    if s == "verified"
    then some verified
    else if s == "unresolved"
    then some Resolution.unresolved
    else if s == "invalid"
    then some invalid
    else none

abbrev pub stream_name : Stream → String
stream_name facts = "facts"
stream_name events = "events"
stream_name episodes = "episodes"

abbrev pub operation_name : Operation → String
operation_name add = "add"
operation_name supersede = "supersede"
operation_name refute = "refute"
operation_name decay = "decay"

abbrev pub representation_name : Representation → String
representation_name full = "full"
representation_name summary = "summary"

abbrev pub authority_class_name : AuthorityClass → String
authority_class_name tool_observed = "tool_observed"
authority_class_name channel_confirmed = "channel_confirmed"
authority_class_name model_derived = "model_derived"
authority_class_name derived_from_retrieval = "derived_from_retrieval"
authority_class_name AuthorityClass.unresolved = "unresolved"

-- A validated write-proposal-v1; `row` is the record, `row_id` its id.
pub record Proposal : Type 0 where
  pub base_revision : String
  pub stream : Stream
  pub operation : Operation
  pub requested : Representation
  pub row : Fields
  pub row_id : String
  pub supersedes : Option String
  pub derived : Bool

-- One validated item of `evidence`.
pub record Evidence : Type 0 where
  pub resolution : Resolution
  pub has_sha256 : Bool

-- A validated write-authority-v1 or -v2.
pub record Authority : Type 0 where
  pub proposal_sha256 : String
  pub base_revision : String
  pub authority_class : AuthorityClass
  pub evidence : List Evidence
  pub streams : List Stream
  pub representations : List Representation
  pub operations : List Operation
