-- ===== src/Log/Entry.antt =====
-- The data that the log explorer receives (frontend/src/types/log.ts). Counts are natural numbers.
use mrboard.Shared.{ℕ, List, Text}

pub record DetectedFieldValue : Type 0 where
  pub value : Text
  pub count : ℕ

pub record DetectedField : Type 0 where
  pub name : Text
  pub type : Text
  pub values : List DetectedFieldValue

pub record LogPattern : Type 0 where
  pub pattern : Text
  pub count : ℕ
  pub percentage : ℕ
  pub sample : Text

pub record LabelWithValues : Type 0 where
  pub name : Text
  pub values : List DetectedFieldValue

pub record LogEntry : Type 0 where
  pub timestamp : Text
  pub level : Text
  pub message : Text
  pub namespace : Text
  pub pod : Text
  pub container : Text
  pub app : Text
  pub service_name : Text
  pub labels : List (Text × Text)

pub record HistogramBucket : Type 0 where
  pub time : ℕ
  pub total : ℕ
  pub error : ℕ
  pub warn : ℕ
  pub info : ℕ
  pub debug : ℕ
