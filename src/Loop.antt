-- ===== src/Loop.antt =====
-- NodesetExporterLoop.h and NodesetExporterLoop.cpp: the core of the export. Each child models some of
-- its methods, and the children of those prove what they do.
pub mod Options
pub mod Filters
pub mod Parent
pub mod StartNode
pub mod KepServer
pub mod Wanted
pub mod Requests
pub mod NodeData
pub mod Exporter
pub mod Aliases
pub mod Distinct
pub mod NodesData
pub mod ExportNodes
pub mod Batches
pub mod StartExport
