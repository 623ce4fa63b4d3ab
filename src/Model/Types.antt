-- ===== src/Model/Types.antt =====
-- pkg/pipeline/pipelinemodel/types.go: the data of a pipeline. A slice is a list; nil and the empty
-- slice are told apart only where the code does so (`shell`, `matrix_values`).
use cicada.Base.{String, ℕ, ℤ, Bool, List, Option}

-- The named values, and any other string that a pipeline file may hold.
pub data BackoffStrategy : Type 0 where
  unset backoff_none backoff_linear backoff_exponential : BackoffStrategy
  other_backoff : String → BackoffStrategy

pub record Retry : Type 0 where
  pub attempts : ℤ
  pub delay : ℤ
  pub backoff : BackoffStrategy

pub data ConflictStrategy : Type 0 where
  conflict_error conflict_skip : ConflictStrategy

pub record ParamDef : Type 0 where
  pub name : String
  pub default : String
  pub required : Bool

pub record Dimension : Type 0 where
  pub name : String
  pub values : List String

pub record Matrix : Type 0 where
  pub dimensions : List Dimension

pub record EnvVar : Type 0 where
  pub key : String
  pub value : String

pub record Export : Type 0 where
  pub path : String
  pub local : String

pub record Artifact : Type 0 where
  pub from : String
  pub source : String
  pub target : String

pub record Mount : Type 0 where
  pub source : String
  pub target : String
  pub read_only : Bool

pub record Cache : Type 0 where
  pub id : String
  pub target : String

pub record Publish : Type 0 where
  pub image : String
  pub push : Bool
  pub insecure : Bool

pub data SecretSource : Type 0 where
  host_env file cmd_source : SecretSource
  other_source : String → SecretSource

pub record SecretDecl : Type 0 where
  pub name : String
  pub source : SecretSource
  pub var : String
  pub path : String
  pub cmd : String

pub record SecretRef : Type 0 where
  pub name : String
  pub env : String
  pub mount : String

-- pkg/conditional/when.go. The cached tree is the text that it was parsed from.
pub record When : Type 0 where
  pub expression : String
  pub deferred : Bool
  pub parsed : Option String

pub record Step : Type 0 where
  pub name : String
  pub run : List String
  pub env : List EnvVar
  pub workdir : String
  pub mounts : List Mount
  pub caches : List Cache
  pub secrets : List SecretRef
  pub exports : List Export
  pub artifacts : List Artifact
  pub when : Option When
  pub no_cache : Bool
  pub timeout : ℤ
  pub shell : Option (List String)
  pub retry : Option Retry
  pub allow_failure : Bool

pub record Job : Type 0 where
  pub name : String
  pub image : String
  pub workdir : String
  pub platform : String
  pub depends_on : List String
  pub mounts : List Mount
  pub caches : List Cache
  pub env : List EnvVar
  pub exports : List Export
  pub artifacts : List Artifact
  pub secrets : List SecretRef
  pub steps : List Step
  pub when : Option When
  pub matrix : Option Matrix
  pub matrix_values : Option (List (String × String))
  pub no_cache : Bool
  pub publish : Option Publish
  pub timeout : ℤ
  pub retry : Option Retry
  pub shell : Option (List String)

pub record Defaults : Type 0 where
  pub image : String
  pub workdir : String
  pub mounts : List Mount
  pub env : List EnvVar
  pub shell : List String

pub record Pipeline : Type 0 where
  pub name : String
  pub jobs : List Job
  pub env : List EnvVar
  pub secrets : List SecretDecl
  pub matrix : Option Matrix
  pub defaults : Option Defaults
  pub topo_order : Option (List ℕ)

pub record FilterOpts : Type 0 where
  pub start_at : String
  pub stop_after : String

pub record ConditionResult : Type 0 where
  pub pipeline : Pipeline
  pub skipped : List String
  pub skipped_steps : List (String × List String)

pub record JobGroup : Type 0 where
  pub jobs : List Job
  pub origin : String
  pub on_conflict : ConflictStrategy

pub record Fragment : Type 0 where
  pub name : String
  pub params : List ParamDef
  pub jobs : List Job
